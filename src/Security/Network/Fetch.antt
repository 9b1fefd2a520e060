-- ===== src/Security/Network/Fetch.antt =====
-- What the bounded fetch of a public document sends and returns.
use buffdata.Prelude.{
  [], none, some, true, false, zero, suc, ℕ, String, Bool, List, ◌==◌, ◌≤◌, Option, arith, ◌+◌,
  string_eq, All, ◌∷◌, if_cases, length, ◌≡◌, inl, ◌++◌, ltb, is_empty, length-append, inr, ◌&&◌,
  not, ◌||◌,
}
use buffdata.Security.Network.{
  Net, Url, fetch_public, collect, SecurityError, Fetched, Request, is_plain, ExecutionContext, Web,
  Response, requested, fetch_rounds, sent, answered, check_network_url, redirect, delivered,
  failure,
}
use buffdata.Prelude.Exec.{Result, err, ok}
use buffdata.Security.Network.Destinations.{InPolicy, Says, check_network_url-Says}

-- A request that may be sent: over HTTP or HTTPS, and pinned to addresses of which there are some, all global.
abbrev pub IsPublic : Net → Request → Type 0
IsPublic net q =
    (is_plain q.url ≡ true)
    × (is_empty q.addresses ≡ false)
    × All (λ ip. net.is_global ip ≡ true) q.addresses

abbrev pub is_https : Url → Bool
is_https u = u.scheme == "https"

-- Every request after one over HTTPS is over HTTPS; the first is so where `secure` says it.
abbrev pub HttpsKept : Bool → List Request → Type 0
HttpsKept secure [] = Unit
HttpsKept secure (q ∷ qs) = (not secure || is_https q.url ≡ true) × HttpsKept (is_https q.url) qs

-- A body that is returned has at most this many bytes.
abbrev pub Fits : ℕ → Result SecurityError (List ℕ) → Type 0
Fits n (err e) = Unit
Fits n (ok bytes) = length bytes ≤ n

abbrev pub Within : Net → ℕ → ℕ → Bool → Fetched → Type 0
Within net max_bytes n secure (r, log) =
    All (IsPublic net) log × (length log ≤ n) × HttpsKept secure log × Fits max_bytes r

abbrev FitsFrom : ℕ → ℕ → Result SecurityError (List ℕ) → Type 0
FitsFrom max_bytes size (err e) = Unit
FitsFrom max_bytes size (ok bytes) = size + length bytes ≤ max_bytes

joined-FitsFrom :
    (max_bytes size : ℕ) (b : List ℕ) (rest : Result SecurityError (List ℕ))
    → FitsFrom max_bytes (size + length b) rest
    → FitsFrom max_bytes size (elim rest [ err e ↦ err e | ok more ↦ ok (b ++ more) ])
joined-FitsFrom max_bytes size b (err e) h = tt
joined-FitsFrom max_bytes size b (ok more) h = ground (arith, h, length-append b more)

collect-FitsFrom :
    (max_bytes size : ℕ) (bs : List (List ℕ))
    → size ≤ max_bytes
    → FitsFrom max_bytes size (collect max_bytes size bs)
collect-FitsFrom max_bytes size [] h = ground (arith, h)
collect-FitsFrom max_bytes size (b ∷ bs) h =
    if_cases (FitsFrom max_bytes size) (ltb max_bytes (size + length b)) _ _ (λ e. tt)
      (λ e.
        joined-FitsFrom max_bytes size b (collect max_bytes (size + length b) bs)
          (collect-FitsFrom max_bytes (size + length b) bs (ground (arith, e))))

from_zero :
    (max_bytes : ℕ) (r : Result SecurityError (List ℕ)) → FitsFrom max_bytes 0 r → Fits max_bytes r
from_zero max_bytes (err e) h = tt
from_zero max_bytes (ok bytes) h = ground (arith, h)

collect-Fits : (max_bytes : ℕ) (bs : List (List ℕ)) → Fits max_bytes (collect max_bytes 0 bs)
collect-Fits max_bytes bs =
    from_zero max_bytes (collect max_bytes 0 bs) (collect-FitsFrom max_bytes 0 bs (ground arith))

not_near :
    (net : Net) (u : Url) (ctx : Option ExecutionContext) (near : Bool)
    → InPolicy net u ctx true near
    → near ≡ false
not_near net u none near h = h
not_near net u (some c) near h = h

module _ (net : Net) (ctx : Option ExecutionContext) where
  checked-IsPublic :
      (u : Url) (ips : List String)
      → Says net ctx true true u (ok ips)
      → IsPublic net (record { url = u; addresses = ips })
  checked-IsPublic u ips (plain, free, names, (near, inside, apart)) = (
    plain,
    ground (arith, names),
    elim apart [ inl e ↦ ground (arith, e, not_near net u ctx near inside) | inr all ↦ all ],
  )

  module _ (web : Web) (max_bytes : ℕ) where
    sent-Within :
        (n : ℕ) (secure : Bool) (q : Request)
        → IsPublic net q
        → (not secure || is_https q.url ≡ true)
        → (f : Fetched) → Within net max_bytes n (is_https q.url) f
        → Within net max_bytes (suc n) secure (sent q f)
    sent-Within n secure q good kept (r, log) (all, short, chain, fits) =
        ((good, all), ground (arith, short), (kept, chain), fits)

    answered-Within :
        (n : ℕ) (secure : Bool) (q : Request)
        → IsPublic net q
        → (not secure || is_https q.url ≡ true)
        → (go_on : Url → Fetched)
        → ((target : Url) (s : Bool)
            → (not s || is_https target ≡ true)
            → Within net max_bytes n s (go_on target))
        → (a : Response) → Within net max_bytes (suc n) secure (answered web max_bytes q go_on a)
    answered-Within n secure q good kept go_on further (redirect none) =
        ((good, tt), ground arith, (kept, tt), tt)
    answered-Within n secure q good kept go_on further (redirect (some location)) =
        if_cases (Within net max_bytes (suc n) secure)
          (is_https q.url && not (is_https (web.urljoin q.url location))) _ _
          (λ e. ((good, tt), ground arith, (kept, tt), tt))
          (λ e.
            sent-Within n secure q good kept (go_on (web.urljoin q.url location))
              (further (web.urljoin q.url location) (is_https q.url) (ground (arith, e))))
    answered-Within n secure q good kept go_on further failure =
        ((good, tt), ground arith, (kept, tt), tt)
    answered-Within n secure q good kept go_on further (delivered blocks) =
        ((good, tt), ground arith, (kept, tt), collect-Fits max_bytes blocks)

    requested-Within :
        (n : ℕ) (secure : Bool) (u : Url)
        → (not secure || is_https u ≡ true)
        → (go_on : Url → Fetched)
        → ((target : Url) (s : Bool)
            → (not s || is_https target ≡ true)
            → Within net max_bytes n s (go_on target))
        → (r : Result SecurityError (List String)) → Says net ctx true true u r
        → Within net max_bytes (suc n) secure (requested web max_bytes n u go_on r)
    requested-Within n secure u kept go_on further (err e) h = (tt, ground arith, tt, tt)
    requested-Within n secure u kept go_on further (ok ips) h =
        let q : Request = record { url = u; addresses = ips } in
        answered-Within n secure q (checked-IsPublic u ips h) kept go_on further (web.answer n q)

    rounds-Within :
        (n : ℕ) (u : Url) (secure : Bool)
        → (not secure || is_https u ≡ true)
        → Within net max_bytes n secure (fetch_rounds net ctx web max_bytes n u)
    rounds-Within zero u secure kept = (tt, ground arith, tt, tt)
    rounds-Within (suc n) u secure kept =
        requested-Within n secure u kept (fetch_rounds net ctx web max_bytes n) (rounds-Within n)
          (check_network_url net ctx true true u) (check_network_url-Says net ctx true true u)

-- Whatever servers answer, the fetch of a public document sends at most six requests. Each is over
-- HTTP or HTTPS and pinned to addresses that are all global, of which there is one at least; once one is over
-- HTTPS, so are all that follow. A body that is returned has at most `max_bytes` bytes.
pub fetch_public-Within :
    (net : Net) (ctx : Option ExecutionContext) (web : Web) (max_bytes : ℕ) (u : Url)
    → Within net max_bytes 6 (is_https u) (fetch_public net ctx web max_bytes u)
unfolding fetch_public
fetch_public-Within net ctx web max_bytes u =
    rounds-Within net ctx web max_bytes 6 u (is_https u) (ground arith)
