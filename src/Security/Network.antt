-- ===== src/Security/Network.antt =====
-- buffdata/security/policy.py and network.py: which destinations an execution may reach, and the
-- bounded fetch of a public document. A URL is the parts that `urlsplit` finds; addresses, their
-- kind and what a server answers come from the packages that read them.
pub mod Destinations
pub mod Fetch
pub mod Examples
use buffdata.Prelude.{
  [], none, some, true, false, zero, suc, refl, ℕ, String, is_empty, Option, List, if◌then◌else◌,
  Bool, ◌==◌, any, string_eq, not, ◌||◌, nat_eq, ◌&&◌, ◌∷◌, contains, ◌+◌, length, ltb, ◌++◌,
}
use buffdata.Models.Item.{or_empty}
use buffdata.Prelude.Exec.{Result, ok, err}
use buffdata.Runs.Tables.{truthy}

pub record Url : Type 0 where
  pub scheme : String
  pub hostname : Option String
  pub port : Option ℕ
  pub username : Option String
  pub password : Option String

-- The part of `SecurityPolicy` that is about the network.
pub record SecurityPolicy : Type 0 where
  pub allowed_hosts : List String
  pub local_endpoints : List Url
  pub allowed_cloud_prefixes : List String

pub data Network : Type 0 where
  unrestricted local strict : Network

pub record ExecutionContext : Type 0 where
  pub network : Network
  pub policy : SecurityPolicy

pub data SecurityError : Type 0 where
  not_plain_http strict_execution endpoint_not_approved host_not_allowed : SecurityError
  not_resolved not_public cloud_not_approved : SecurityError
  no_location https_downgrade too_large too_many_redirects http_error : SecurityError

-- What is asked of Python's packages: lower case and dots at the end, the address that a host spells,
-- the addresses that it resolves to, and whether an address is global.
pub record Net : Type 0 where
  pub lower : String → String
  pub strip_dots : String → String
  pub ip_address : String → Option String
  pub getaddrinfo : String → ℕ → Option (List String)
  pub is_global : String → Bool

abbrev pub default_port : String → ℕ
default_port scheme = if scheme == "https" then 443 else 80

-- `p.port or (443 if p.scheme == "https" else 80)`
abbrev pub port_of : Url → ℕ
port_of u = elim u.port [
  | none ↦ default_port u.scheme
  | some p ↦ if p == 0 then default_port u.scheme else p
]

pub record Origin : Type 0 where
  pub scheme : String
  pub host : String
  pub port : ℕ

-- `_origin`; the program joins the three to a text.
abbrev pub origin_of : Net → Url → Origin
origin_of net u = record {
  scheme = u.scheme;
  host = net.lower (or_empty u.hostname);
  port = port_of u;
}

abbrev pub origin_beq : Origin → Origin → Bool
origin_beq a b = (a.scheme == b.scheme) && (a.host == b.host) && (a.port == b.port)

-- `parsed.scheme not in {"http", "https"} or not parsed.hostname or …`, the other way round.
abbrev pub is_plain : Url → Bool
is_plain u =
    ((u.scheme == "http") || (u.scheme == "https"))
    && truthy u.hostname
    && not (truthy u.username)
    && not (truthy u.password)

abbrev pub is_strict : Option ExecutionContext → Bool
is_strict none = false
is_strict (some c) = elim c.network [ strict ↦ true | _ ↦ false ]

abbrev pub host_of : Net → Url → String
host_of net u = net.strip_dots (net.lower (or_empty u.hostname))

-- The origin that is compared: its host has no dot at the end.
abbrev pub checked_origin : Net → Url → Origin
checked_origin net u = record { scheme = u.scheme; host = host_of net u; port = port_of u }

abbrev pub is_approved : Net → SecurityPolicy → Url → Bool
is_approved net p u =
    any (λ e. origin_beq (checked_origin net u) (origin_of net e)) p.local_endpoints

-- The checks against the context: whether the destination is an approved local endpoint.
abbrev pub context_check : Net → Url → Option ExecutionContext → Bool → Result SecurityError Bool
context_check net u none ordinary_import = ok false
context_check net u (some c) true = ok false
context_check net u (some c) false =
    let near = is_approved net c.policy u in
    let outside = not near && not (contains (host_of net u) c.policy.allowed_hosts) in
    elim c.network [
      | local ↦ if not near then err endpoint_not_approved else ok near
      | _ ↦ if outside then err host_not_allowed else ok near
    ]

abbrev pub resolved : Option (List String) → Result SecurityError (Option (List String))
resolved none = err not_resolved
resolved (some rows) = ok (some rows)

-- `p.port or 443`
abbrev pub lookup_port : Url → ℕ
lookup_port u = elim u.port [ none ↦ 443 | some p ↦ if p == 0 then 443 else p ]

-- The addresses that are left to be checked; none is the early return of no addresses.
abbrev pub addresses_of :
    Net → Url → Bool → Option String → Result SecurityError (Option (List String))
addresses_of net u resolve (some ip) = ok (some (ip ∷ []))
addresses_of net u resolve none =
    if not resolve then ok none else resolved (net.getaddrinfo (host_of net u) (lookup_port u))

-- `not addresses or any(not is_global) and not local`
abbrev pub public_check :
    Net → Bool → Result SecurityError (Option (List String)) → Result SecurityError (List String)
public_check net near (err e) = err e
public_check net near (ok none) = ok []
public_check net near (ok (some ips)) =
    if is_empty ips || (any (λ ip. not (net.is_global ip)) ips && not near)
    then err not_public
    else ok ips

abbrev pub located :
    Net → Url → Bool → Result SecurityError Bool → Result SecurityError (List String)
located net u resolve (err e) = err e
located net u resolve (ok near) =
    public_check net near (addresses_of net u resolve (net.ip_address (host_of net u)))

-- `check_network_url`, in the context of the execution if there is one.
unfoldable pub check_network_url :
    Net → Option ExecutionContext → Bool → Bool → Url → Result SecurityError (List String)
check_network_url net ctx resolve ordinary_import u =
    if not (is_plain u)
    then err not_plain_http
    else if is_strict ctx
    then err strict_execution
    else located net u resolve (context_check net u ctx ordinary_import)

-- `check_cloud`, with `starts_with url prefix` for `url.startswith(prefix.rstrip("/") + "/")`.
unfoldable pub check_cloud :
    (String → String → Bool) → Option ExecutionContext → String → Result SecurityError Unit
check_cloud starts_with none url = ok tt
check_cloud starts_with (some c) url = elim c.network [
  | unrestricted ↦
      if any (starts_with url) c.policy.allowed_cloud_prefixes
      then ok tt
      else err cloud_not_approved
  | _ ↦ err cloud_not_approved
]

-- What a server answers: a redirect with its `Location`, an error status, or a body in blocks.
pub data Response : Type 0 where
  redirect : Option String → Response
  failure : Response
  delivered : List (List ℕ) → Response

-- A request that is sent: the URL, and the addresses that it is pinned to.
pub record Request : Type 0 where
  pub url : Url
  pub addresses : List String

-- The network: what the server answers to a request of a round, and `urljoin`.
pub record Web : Type 0 where
  pub answer : ℕ → Request → Response
  pub urljoin : Url → String → Url

-- The loop over the blocks of a body.
abbrev pub collect : ℕ → ℕ → List (List ℕ) → Result SecurityError (List ℕ)
collect max_bytes size [] = ok []
collect max_bytes size (b ∷ bs) =
    let rest = collect max_bytes (size + length b) bs in
    if ltb max_bytes (size + length b)
    then err too_large
    else elim rest [ err e ↦ err e | ok more ↦ ok (b ++ more) ]

-- The result, and the requests that were sent before it.
abbrev pub Fetched : Type 0
Fetched = Result SecurityError (List ℕ) × List Request

abbrev pub sent : Request → Fetched → Fetched
sent q (r, qs) = (r, q ∷ qs)

-- What a response leads to: `go_on` is the rest of the loop from the target of a redirect.
abbrev pub answered : Web → ℕ → Request → (Url → Fetched) → Response → Fetched
answered web max_bytes q go_on (redirect none) = (err no_location, q ∷ [])
answered web max_bytes q go_on (redirect (some location)) =
    let target = web.urljoin q.url location in
    if (q.url.scheme == "https") && not (target.scheme == "https")
    then (err https_downgrade, q ∷ [])
    else sent q (go_on target)
answered web max_bytes q go_on failure = (err http_error, q ∷ [])
answered web max_bytes q go_on (delivered blocks) = (collect max_bytes 0 blocks, q ∷ [])

abbrev pub requested :
    Web → ℕ → ℕ → Url → (Url → Fetched) → Result SecurityError (List String) → Fetched
requested web max_bytes n u go_on (err e) = (err e, [])
requested web max_bytes n u go_on (ok ips) =
    let q : Request = record { url = u; addresses = ips } in
    answered web max_bytes q go_on (web.answer n q)

-- `for _ in range(6)`: as many rounds as are left.
abbrev pub fetch_rounds : Net → Option ExecutionContext → Web → ℕ → ℕ → Url → Fetched
fetch_rounds net ctx web max_bytes zero u = (err too_many_redirects, [])
fetch_rounds net ctx web max_bytes (suc n) u =
    requested web max_bytes n u (fetch_rounds net ctx web max_bytes n)
      (check_network_url net ctx true true u)

-- `fetch_public`
unfoldable pub fetch_public : Net → Option ExecutionContext → Web → ℕ → Url → Fetched
fetch_public net ctx web max_bytes u = fetch_rounds net ctx web max_bytes 6 u
