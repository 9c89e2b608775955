-- ===== src/Egress/Safe.antt =====
-- What the checks of a URL guarantee, and what `fetch` requests.
use chief_opportunity_intell.Prelude.{
  String, ◌≡◌, refl, sym, ap, inl, inr, Bool, true, false, not, ◌&&◌, Option, none, some, List, [],
  ◌∷◌, arith, str_eq, Bool-cases, All, Result, ok, err, ◌>>=◌, ◌>>◌, raise_if, ok-same, refused_ok,
  ℕ, ◌<◌, ◌≤◌, ◌⊎◌, ◌||◌,
}
use chief_opportunity_intell.Prelude.{refused_ok}
use chief_opportunity_intell.Egress.{
  EgressError, last_url, check_final, fetched, internal_host, validate_url, http_not_allowed, fetch,
  metadata_host, port_of, metadata_hosts, is_metadata, bad_scheme, is_scheme, no_hostname,
  check_host, blocked_address, ParsedUrl, is_blocked, check_resolved, check_addresses, check_parsed,
  host_of, Net, unresolved, IpAddress, is_blocked_ip, in_cgnat, is_hosted,
}
use chief_opportunity_intell.Egress.Hosts.{is_internal}

bind-ok :
    {X A B : Type 0} (m : Result X A) (f : A → Result X B) (y : B)
    → (m >>= f) ≡ ok y
    → (a : A) × (m ≡ ok a) × (f a ≡ ok y)
bind-ok (ok a) f y h = (a, refl, h)
bind-ok (err e) f y h = absurd (refused_ok e y h)

-- A test that raises did not.
raise_if-ok : {X : Type 0} (b : Bool) (e : X) (u : Unit {0}) → raise_if b e ≡ ok u → b ≡ false
raise_if-ok true e u h = absurd (refused_ok e u h)
raise_if-ok false e u h = refl

not-false : (b : Bool) → not b ≡ false → b ≡ true
not-false b h = ground arith

host_of-ok : (o : Option String) (host : String) → host_of o ≡ ok host → o ≡ some host
unfolding host_of
host_of-ok none host h = absurd (refused_ok no_hostname host h)
host_of-ok (some own) host h = elim (Bool-cases (str_eq own "")) [
  | inl blank ↦ absurd (refused_ok no_hostname host (rw blank at h))
  | inr there ↦ ap some (ok-same own host (rw there at h))
]

-- Outside of each range that `ipaddress` names, and of 100.64.0.0/10.
abbrev pub IsPublic : IpAddress → Type 0
IsPublic a =
    (a.is_private ≡ false)
    × (a.is_loopback ≡ false)
    × (a.is_link_local ≡ false)
    × (a.is_multicast ≡ false)
    × (a.is_reserved ≡ false)
    × (a.is_unspecified ≡ false)
    × ((n : ℕ) → a.v4 ≡ some n → (n < 1681915904) ⊎ (1686110208 ≤ n))

outside-in_cgnat :
    (v4 : Option ℕ)
    → in_cgnat v4 ≡ false
    → (n : ℕ) → v4 ≡ some n
    → (n < 1681915904) ⊎ (1686110208 ≤ n)
unfolding in_cgnat
outside-in_cgnat v4 h n e = ground arith

either_false : (a b : Bool) → (a || b) ≡ false → (a ≡ false) × (b ≡ false)
either_false a b h = ground arith

three_false : (a b c : Bool) → (a || b || c) ≡ false → (a ≡ false) × (b ≡ false) × (c ≡ false)
three_false a b c h = ground arith

is_blocked_ip-IsPublic : (a : IpAddress) → is_blocked_ip a ≡ false → IsPublic a
unfolding is_blocked_ip
is_blocked_ip-IsPublic a h =
    let named = a.is_private || a.is_loopback || a.is_link_local in
    let further = a.is_multicast || a.is_reserved || a.is_unspecified in
    let (both, cgnat) = either_false (named || further) (in_cgnat a.v4) h in
    let (first, second) = either_false named further both in
    let (private, loopback, link_local) =
      three_false a.is_private a.is_loopback a.is_link_local first in
    let (multicast, reserved, unspecified) =
      three_false a.is_multicast a.is_reserved a.is_unspecified second in
    (private, loopback, link_local, multicast, reserved, unspecified, outside-in_cgnat a.v4 cgnat)

module _ (net : Net) where
  -- Every address that can be read is public.
  abbrev pub IsOpen : List String → Type 0
  IsOpen addresses =
      All (λ text. (a : IpAddress) → net.ip_address text ≡ some a → IsPublic a) addresses

  is_blocked-IsPublic :
      (found : Option IpAddress)
      → is_blocked found ≡ false
      → (a : IpAddress) → found ≡ some a
      → IsPublic a
  unfolding is_blocked
  is_blocked-IsPublic found h a e = is_blocked_ip-IsPublic a (rw e at h)

  check_addresses-IsOpen :
      (addresses : List String) (u : Unit {0})
      → check_addresses net addresses ≡ ok u
      → IsOpen addresses
  unfolding check_addresses
  check_addresses-IsOpen [] u h = tt
  check_addresses-IsOpen (a ∷ addresses) u h = elim (Bool-cases (is_blocked (net.ip_address a))) [
    | inl blocked ↦ absurd (refused_ok blocked_address u (rw blocked at h))
    | inr free ↦ (
      is_blocked-IsPublic (net.ip_address a) free,
      check_addresses-IsOpen addresses u (rw free at h),
    )
  ]

  check_resolved-IsOpen :
      (found : Option (List String)) (u : Unit {0})
      → check_resolved net found ≡ ok u
      → (addresses : List String) × (found ≡ some addresses) × IsOpen addresses
  unfolding check_resolved
  check_resolved-IsOpen none u h = absurd (refused_ok unresolved u h)
  check_resolved-IsOpen (some addresses) u h =
      (addresses, refl, check_addresses-IsOpen addresses u h)

  -- What an accepted host is: neither a metadata endpoint nor an internal name, and its addresses
  -- are public.
  abbrev pub IsSafeHost : ParsedUrl → String → Type 0
  IsSafeHost url host =
      (is_metadata metadata_hosts host ≡ false)
      × (is_internal host ≡ false)
      × (addresses : List String) × (net.getaddrinfo host (port_of url url.port) ≡ some addresses)
      × IsOpen addresses

  check_host-IsSafeHost :
      (url : ParsedUrl) (host : String) (u : Unit {0})
      → check_host net url host ≡ ok u
      → IsSafeHost url host
  unfolding check_host
  check_host-IsSafeHost url host u h =
      let (_, named, resolved) =
        bind-ok
          (raise_if (is_metadata metadata_hosts host) metadata_host
            >> raise_if (is_internal host) internal_host)
          (λ _. check_resolved net (net.getaddrinfo host (port_of url url.port))) u h in
      let (_, public, outside) =
        bind-ok (raise_if (is_metadata metadata_hosts host) metadata_host)
          (λ _. raise_if (is_internal host) internal_host) _ named in
      let (addresses, found, open_to) =
        check_resolved-IsOpen (net.getaddrinfo host (port_of url url.port)) u resolved in
      (raise_if-ok _ _ _ public, raise_if-ok _ _ _ outside, addresses, found, open_to)

  -- What an accepted URL is: its scheme is allowed, and its host is safe.
  abbrev pub IsSafe : ParsedUrl → Bool → Type 0
  IsSafe url allow_http =
      (is_scheme url.scheme ≡ true)
      × ((str_eq url.scheme "http" && not allow_http) ≡ false)
      × (host : String) × (url.hostname ≡ some host)
      × IsSafeHost url (net.lower host)

  check_parsed-IsSafe :
      (url : ParsedUrl) (allow_http : Bool) (u : Unit {0})
      → check_parsed net url allow_http ≡ ok u
      → IsSafe url allow_http
  unfolding check_parsed
  check_parsed-IsSafe url allow_http u h =
      let scheme_test = raise_if (not (is_scheme url.scheme)) bad_scheme in
      let http_test = raise_if (str_eq url.scheme "http" && not allow_http) http_not_allowed in
      let (host, hosted, checked) =
        bind-ok (scheme_test >> http_test >> host_of url.hostname)
          (λ name. check_host net url (net.lower name)) u h in
      let (_, tested, named) =
        bind-ok (scheme_test >> http_test) (λ _. host_of url.hostname) host hosted in
      let (_, first, second) = bind-ok scheme_test (λ _. http_test) _ tested in
      (
        not-false _ (raise_if-ok _ _ _ first),
        raise_if-ok _ _ _ second,
        host,
        host_of-ok url.hostname host named,
        check_host-IsSafeHost url (net.lower host) u checked,
      )

  -- A URL that is accepted has an allowed scheme, HTTP only where it is allowed, and a host that is
  -- neither a metadata endpoint nor an internal name and that resolves; every address of the host
  -- that can be read is outside of each range that `ipaddress` names, and of
  -- 100.64.0.0/10. The URL is returned as it is.
  pub validate_url-IsSafe :
      (url out : String) (allow_http : Bool)
      → validate_url net url allow_http ≡ ok out
      → (out ≡ url) × IsSafe (net.urlparse url) allow_http
  unfolding validate_url
  validate_url-IsSafe url out allow_http h =
      let (u, checked, same) =
        bind-ok (check_parsed net (net.urlparse url) allow_http) (λ _. ok url) out h in
      (sym (ok-same url out same), check_parsed-IsSafe (net.urlparse url) allow_http u checked)

  -- Either it has no host, which the last check passes over, or it is safe.
  abbrev pub IsPassed : String → Bool → Type 0
  IsPassed url allow_http =
      (is_hosted (net.urlparse url).hostname ≡ false) ⊎ IsSafe (net.urlparse url) allow_http

  check_final-IsPassed :
      (url out : String) (allow_http : Bool)
      → check_final net url allow_http ≡ ok out
      → IsPassed url allow_http
  unfolding check_final
  check_final-IsPassed url out allow_http h =
      elim (Bool-cases (is_hosted (net.urlparse url).hostname)) [
        | inl hosted ↦ inr (validate_url-IsSafe url out allow_http (rw hosted at h)).1
        | inr bare ↦ inl bare
      ]

  -- What may be requested and returned: nothing at all, or first the given URL, which is safe; and
  -- what is returned is the last URL that was requested, which has no host or is safe.
  abbrev pub IsChecked : String → Bool → List String × Result EgressError (String × String) → Type 0
  IsChecked url allow_http ([], err e) = Unit {0}
  IsChecked url allow_http ([], ok _) = ⊥
  IsChecked url allow_http (first ∷ chain, err e) =
      (first ≡ url) × IsSafe (net.urlparse url) allow_http
  IsChecked url allow_http (first ∷ chain, ok (final, body)) =
      (first ≡ url)
      × IsSafe (net.urlparse url) allow_http
      × (final ≡ last_url first chain)
      × IsPassed final allow_http

  returned-IsChecked :
      (url : String) (chain : List String) (allow_http : Bool) (body : String)
      (checked : Result EgressError String)
      → IsSafe (net.urlparse url) allow_http
      → check_final net (last_url url chain) allow_http ≡ checked
      → IsChecked url allow_http (url ∷ chain, checked >> ok (last_url url chain, body))
  returned-IsChecked url chain allow_http body (err e) safe h = (refl, safe)
  returned-IsChecked url chain allow_http body (ok out) safe h =
      (refl, safe, refl, check_final-IsPassed (last_url url chain) out allow_http h)

  fetched-IsChecked :
      (url : String) (allow_http : Bool) (checked : Result EgressError String)
      → validate_url net url allow_http ≡ checked
      → IsChecked url allow_http (fetched net url allow_http checked)
  unfolding fetched
  fetched-IsChecked url allow_http (err e) h = tt
  fetched-IsChecked url allow_http (ok out) h =
      let (same, safe) = validate_url-IsSafe url out allow_http h in
      rw same (
        returned-IsChecked url (net.redirects url) allow_http
          (net.body (last_url url (net.redirects url)))
          (check_final net (last_url url (net.redirects url)) allow_http) safe refl)

  -- Nothing is requested unless the given URL is safe, and it is then the first one requested. What
  -- is returned is the last URL that was requested, and that one is safe or has no host. Nothing is
  -- said of the URLs between.
  pub fetch-IsChecked :
      (url : String) (allow_http : Bool) → IsChecked url allow_http (fetch net url allow_http)
  unfolding fetch
  fetch-IsChecked url allow_http =
      fetched-IsChecked url allow_http (validate_url net url allow_http) refl
