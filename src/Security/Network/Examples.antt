-- ===== src/Security/Network/Examples.antt =====
-- Tests of destinations and of a fetch with a redirect.
use buffdata.Prelude.{
  [], none, some, true, false, refl, String, if◌then◌else◌, ◌≡◌, ◌∷◌, ◌==◌, string_eq, nat_eq,
}
use buffdata.Security.Network.{
  Web, check_network_url, Net, Url, ExecutionContext, fetch_public, local, redirect, not_public,
  too_large, delivered,
}
use buffdata.Security.Network.Fetch.{Within, fetch_public-Within}
use buffdata.Prelude.Exec.{err, ok}

-- Two names and one that resolves to a private address.
abbrev small_net : Net
small_net = record {
  lower = λ s. s;
  strip_dots = λ s. s;
  ip_address = λ s. none;
  getaddrinfo =
      λ host port. if host == "inside" then some ("10.0.0.1" ∷ []) else some ("8.8.8.8" ∷ []);
  is_global = λ ip. ip == "8.8.8.8";
}

abbrev url_of : String → String → Url
url_of scheme host = record {
  scheme = scheme;
  hostname = some host;
  port = none;
  username = none;
  password = none;
}

abbrev approving : ExecutionContext
approving = record {
  network = local;
  policy = record {
    allowed_hosts = [];
    local_endpoints = url_of "http" "inside" ∷ [];
    allowed_cloud_prefixes = [];
  };
}

-- A server that redirects once.
abbrev small_web : Web
small_web = record {
  answer = λ n q. if n == 5 then redirect (some "/b") else delivered ((1 ∷ 2 ∷ []) ∷ (3 ∷ []) ∷ []);
  urljoin = λ u location. u;
}

private_refused :
    check_network_url small_net none true false (url_of "http" "inside") ≡ err not_public
unfolding check_network_url
private_refused = refl

approved_passes :
    check_network_url small_net (some approving) true false (url_of "http" "inside")
    ≡ ok ("10.0.0.1" ∷ [])
unfolding check_network_url
approved_passes = refl

redirect_followed :
    (fetch_public small_net none small_web 3 (url_of "https" "a")).0 ≡ ok (1 ∷ 2 ∷ 3 ∷ [])
unfolding fetch_public check_network_url
redirect_followed = refl

one_too_large : (fetch_public small_net none small_web 2 (url_of "https" "a")).0 ≡ err too_large
unfolding fetch_public check_network_url
one_too_large = refl

fetch_public-Within_example :
    Within small_net 3 6 true (fetch_public small_net none small_web 3 (url_of "https" "a"))
fetch_public-Within_example = fetch_public-Within small_net none small_web 3 (url_of "https" "a")
