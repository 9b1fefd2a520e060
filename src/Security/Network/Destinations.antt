-- ===== src/Security/Network/Destinations.antt =====
-- What a checked destination is.
use buffdata.Prelude.{
  [], none, some, true, false, refl, String, Option, List, any, Bool, not, Bool-cases, ◌≡◌, All,
  inr, ◌⊎◌, inl, ◌∷◌, is_empty, contains, arith, ◌||◌, string_eq, sym, if_cases, ◌&&◌,
}
use buffdata.Security.Network.{
  check_network_url, Net, Url, ExecutionContext, Network, SecurityPolicy, is_plain, context_check,
  SecurityError, is_approved, is_strict, located, public_check, not_plain_http, addresses_of,
  strict_execution, host_of, local, resolved, lookup_port,
}
use buffdata.Prelude.Exec.{Result, ok, err}

-- Whether the check took the destination for an approved local endpoint, and what the policy of the
-- execution says of it. An ordinary import, or no execution, has no local endpoints.
abbrev pub InPolicy : Net → Url → Option ExecutionContext → Bool → Bool → Type 0
InPolicy net u none ordinary_import near = near ≡ false
InPolicy net u (some c) true near = near ≡ false
InPolicy net u (some c) false near =
    (near ≡ is_approved net c.policy u) × elim c.network as (λ _. Type 0) [
      | local ↦ near ≡ true
      | _ ↦ (near || contains (host_of net u) c.policy.allowed_hosts) ≡ true
    ]

abbrev pub Passes : Net → Option ExecutionContext → Bool → Url → List String → Type 0
Passes net ctx ordinary_import u ips =
    (near : Bool) × InPolicy net u ctx ordinary_import near
    × ((near ≡ true) ⊎ All (λ ip. net.is_global ip ≡ true) ips)

-- What an answer of the check says of the destination.
abbrev pub Says :
    Net → Option ExecutionContext → Bool → Bool → Url → Result SecurityError (List String) → Type 0
Says net ctx resolve ordinary_import u (err not_plain_http) = is_plain u ≡ false
Says net ctx resolve ordinary_import u (err strict_execution) = is_strict ctx ≡ true
Says net ctx resolve ordinary_import u (err e) = (is_plain u ≡ true) × (is_strict ctx ≡ false)
Says net ctx resolve ordinary_import u (ok ips) =
    (is_plain u ≡ true)
    × (is_strict ctx ≡ false)
    × (not resolve || not (is_empty ips) ≡ true)
    × Passes net ctx ordinary_import u ips

all_global :
    (net : Net) (ips : List String)
    → any (λ ip. not (net.is_global ip)) ips ≡ false
    → All (λ ip. net.is_global ip ≡ true) ips
all_global net [] h = tt
all_global net (ip ∷ ips) h = (ground (arith, h), all_global net ips (ground (arith, h)))

abbrev ContextSays : Net → Url → Option ExecutionContext → Bool → Result SecurityError Bool → Type 0
ContextSays net u ctx ordinary_import (ok near) = InPolicy net u ctx ordinary_import near
ContextSays net u ctx ordinary_import (err not_plain_http) = ⊥
ContextSays net u ctx ordinary_import (err strict_execution) = ⊥
ContextSays net u ctx ordinary_import (err e) = Unit

policy-ContextSays :
    (net : Net) (u : Url) (n : Network) (p : SecurityPolicy)
    → let c : ExecutionContext = record { network = n; policy = p } in
      ContextSays net u (some c) false (context_check net u (some c) false)
policy-ContextSays net u local p = elim (Bool-cases (is_approved net p u)) [
  | inl e ↦ rw e (sym e, refl)
  | inr e ↦ rw e tt
]
policy-ContextSays net u n p = elim (Bool-cases (is_approved net p u)) [
  | inl e ↦ rw e (sym e, refl)
  | inr e ↦ elim (Bool-cases (contains (host_of net u) p.allowed_hosts)) [
    | inl f ↦ rw (e, f) (sym e, f)
    | inr f ↦ rw (e, f) tt
  ]
]

context-ContextSays :
    (net : Net) (u : Url) (ctx : Option ExecutionContext) (ordinary_import : Bool)
    → ContextSays net u ctx ordinary_import (context_check net u ctx ordinary_import)
context-ContextSays net u none ordinary_import = refl
context-ContextSays net u (some c) true = refl
context-ContextSays net u (some c) false = policy-ContextSays net u c.network c.policy

module _ (net : Net) (ctx : Option ExecutionContext) (resolve ordinary_import : Bool) (u : Url)
    (plain : is_plain u ≡ true) (free : is_strict ctx ≡ false) where
  found-Says :
      (near : Bool)
      → InPolicy net u ctx ordinary_import near
      → (ips : List String)
      → Says net ctx resolve ordinary_import u (public_check net near (ok (some ips)))
  found-Says near inside [] = (plain, free)
  found-Says true inside (ip ∷ ips) =
      if_cases (Says net ctx resolve ordinary_import u)
        (any (λ ip. not (net.is_global ip)) (ip ∷ ips) && false) _ _ (λ e. (plain, free))
        (λ e. (plain, free, ground arith, (true, inside, inl refl)))
  found-Says false inside (ip ∷ ips) =
      elim (Bool-cases (any (λ ip. not (net.is_global ip)) (ip ∷ ips))) [
        | inl g ↦ rw g (plain, free)
        | inr g ↦
            rw g (plain, free, ground arith, (false, inside, inr (all_global net (ip ∷ ips) g)))
      ]

  named-Says :
      (near : Bool)
      → InPolicy net u ctx ordinary_import near
      → (rows : Option (List String))
      → Says net ctx resolve ordinary_import u (public_check net near (resolved rows))
  named-Says near inside none = (plain, free)
  named-Says near inside (some ips) = found-Says near inside ips

  public-Says :
      (near : Bool)
      → InPolicy net u ctx ordinary_import near
      → (literal : Option String)
      → Says net ctx resolve ordinary_import u
          (public_check net near (addresses_of net u resolve literal))
  public-Says near inside (some ip) = found-Says near inside (ip ∷ [])
  public-Says near inside none =
      if_cases (λ r. Says net ctx resolve ordinary_import u (public_check net near r)) (not resolve)
        _ _ (λ e. (plain, free, ground (arith, e), (near, inside, inr tt)))
        (λ e. named-Says near inside (net.getaddrinfo (host_of net u) (lookup_port u)))

  located-Says :
      (r : Result SecurityError Bool)
      → ContextSays net u ctx ordinary_import r
      → Says net ctx resolve ordinary_import u (located net u resolve r)
  located-Says (ok near) h = public-Says near h (net.ip_address (host_of net u))
  located-Says (err not_plain_http) h = absurd h
  located-Says (err strict_execution) h = absurd h
  located-Says (err e) h = (plain, free)

pub check_network_url-Says :
    (net : Net) (ctx : Option ExecutionContext) (resolve ordinary_import : Bool) (u : Url)
    → Says net ctx resolve ordinary_import u (check_network_url net ctx resolve ordinary_import u)
unfolding check_network_url
check_network_url-Says net ctx resolve ordinary_import u = elim (Bool-cases (is_plain u)) [
  | inr rough ↦ rw rough rough
  | inl plain ↦ elim (Bool-cases (is_strict ctx)) [
    | inl shut ↦ rw (plain, shut) shut
    | inr free ↦
        rw (plain, free)
          (located-Says net ctx resolve ordinary_import u plain free
            (context_check net u ctx ordinary_import)
            (context-ContextSays net u ctx ordinary_import))
  ]
]
