-- ===== src/Egress.antt =====
-- backend/app/security/egress.py: which URLs may be fetched, and `SafeHttpClient.fetch`. What comes
-- from Python's `urllib`, `socket` and `ipaddress` and from the HTTP client is in `Net`: a URL's
-- parts, a host's addresses, what an address is, and the URLs that the client is redirected to.
pub mod Hosts
pub mod Safe
mod Tests
use chief_opportunity_intell.Egress.Hosts.{is_internal}
use chief_opportunity_intell.Prelude.{
  ℕ, zero, suc, ◌-◌, ◌/◌, String, Bool, false, not, ◌&&◌, ◌||◌, Option, none, some, List, [], ◌∷◌,
  str_eq, ltb, leb, if◌then◌else◌, Result, ok, err, ◌>>=◌, ◌>>◌, raise_if,
}

pub record ParsedUrl : Type 0 where
  pub scheme : String
  pub hostname : Option String
  pub port : Option ℕ

-- The properties of `ipaddress`; `v4` is the number of an IPv4 address.
pub record IpAddress : Type 0 where
  pub is_private : Bool
  pub is_loopback : Bool
  pub is_link_local : Bool
  pub is_multicast : Bool
  pub is_reserved : Bool
  pub is_unspecified : Bool
  pub v4 : Option ℕ

pub record Net : Type 0 where
  pub urlparse : String → ParsedUrl
  pub lower : String → String
  pub getaddrinfo : String → ℕ → Option (List String)
  pub ip_address : String → Option IpAddress
  pub redirects : String → List String
  pub body : String → String

pub data EgressError : Type 0 where
  bad_scheme http_not_allowed no_hostname metadata_host internal_host : EgressError
  unresolved blocked_address : EgressError

-- `_METADATA_HOSTS`
abbrev pub metadata_hosts : List String
metadata_hosts =
    "169.254.169.254" ∷ "metadata.google.internal" ∷ "metadata.azure.com" ∷ "metadata.aws.internal"
    ∷ []

-- `address in _CGNAT`: 100.64.0.0/10
unfoldable pub in_cgnat : Option ℕ → Bool
in_cgnat none = false
in_cgnat (some n) = leb 1681915904 n && ltb n 1686110208

-- `_is_blocked_ip`
unfoldable pub is_blocked_ip : IpAddress → Bool
unfolding in_cgnat
is_blocked_ip a =
    (a.is_private || a.is_loopback || a.is_link_local)
    || (a.is_multicast || a.is_reserved || a.is_unspecified)
    || in_cgnat a.v4

-- A text that is no address is passed over.
unfoldable pub is_blocked : Option IpAddress → Bool
unfolding is_blocked_ip
is_blocked none = false
is_blocked (some a) = is_blocked_ip a

unfoldable pub is_scheme : String → Bool
is_scheme s = str_eq s "https" || str_eq s "http"

unfoldable pub port_of : ParsedUrl → Option ℕ → ℕ
port_of url (some zero) = if str_eq url.scheme "https" then 443 else 80
port_of url (some (suc p)) = suc p
port_of url none = if str_eq url.scheme "https" then 443 else 80

-- `not parsed.hostname`
unfoldable pub host_of : Option String → Result EgressError String
host_of none = err no_hostname
host_of (some host) = if str_eq host "" then err no_hostname else ok host

-- The last URL of a chain.
unfoldable pub last_url : String → List String → String
last_url url [] = url
last_url url (next ∷ chain) = last_url next chain

unfoldable pub is_hosted : Option String → Bool
is_hosted none = false
is_hosted (some host) = not (str_eq host "")

-- `host in _METADATA_HOSTS`
unfoldable pub is_metadata : List String → String → Bool
is_metadata [] host = false
is_metadata (h ∷ hosts) host = str_eq host h || is_metadata hosts host

module _ (net : Net) where
  unfoldable pub check_addresses : List String → Result EgressError (Unit {0})
  unfolding is_blocked
  check_addresses [] = ok tt
  check_addresses (a ∷ addresses) =
      let rest = check_addresses addresses in
      if is_blocked (net.ip_address a) then err blocked_address else rest

  unfoldable pub check_resolved : Option (List String) → Result EgressError (Unit {0})
  unfolding check_addresses
  check_resolved none = err unresolved
  check_resolved (some addresses) = check_addresses addresses

  unfoldable pub check_host : ParsedUrl → String → Result EgressError (Unit {0})
  unfolding check_resolved port_of is_metadata is_internal
  check_host url host =
      raise_if (is_metadata metadata_hosts host) metadata_host
      >> raise_if (is_internal host) internal_host
      >> check_resolved (net.getaddrinfo host (port_of url url.port))

  unfoldable pub check_parsed : ParsedUrl → Bool → Result EgressError (Unit {0})
  unfolding is_scheme host_of check_host
  check_parsed url allow_http =
      raise_if (not (is_scheme url.scheme)) bad_scheme
      >> raise_if (str_eq url.scheme "http" && not allow_http) http_not_allowed
      >> host_of url.hostname
      >>= λ host. check_host url (net.lower host)

  unfoldable pub validate_url : String → Bool → Result EgressError String
  unfolding check_parsed
  validate_url url allow_http = check_parsed (net.urlparse url) allow_http >> ok url

  -- `if response.url.host: validate_url(...)`
  unfoldable pub check_final : String → Bool → Result EgressError String
  unfolding validate_url
  check_final url allow_http =
      if is_hosted (net.urlparse url).hostname then validate_url url allow_http else ok url

  -- What follows the first check: the client is redirected before the last URL is checked.
  unfoldable pub fetched :
      String → Bool → Result EgressError String → List String × Result EgressError (String × String)
  unfolding check_final last_url
  fetched url allow_http (err e) = ([], err e)
  fetched url allow_http (ok safe_url) =
      let chain = net.redirects safe_url in
      let final = last_url safe_url chain in
      (safe_url ∷ chain, check_final final allow_http >> ok (final, net.body final))

  -- `fetch`: the URLs that are requested, in order, and the URL and body that are returned. The
  -- body's limit and cleaning are left out.
  unfoldable pub fetch : String → Bool → List String × Result EgressError (String × String)
  unfolding validate_url fetched
  fetch url allow_http = fetched url allow_http (validate_url url allow_http)
