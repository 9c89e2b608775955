-- ===== src/Egress/Tests.antt =====
-- Worked examples of the egress checks.
use chief_opportunity_intell.Prelude.{String, ◌≡◌, refl, false, none, some, [], ◌∷◌, ok}
use chief_opportunity_intell.Egress.{fetched, fetch, Net, validate_url, IpAddress}
use chief_opportunity_intell.Egress.Safe.{fetch-IsChecked, IsChecked, validate_url-IsSafe, IsSafe}

abbrev public_ip : IpAddress
public_ip = record {
  is_private = false;
  is_loopback = false;
  is_link_local = false;
  is_multicast = false;
  is_reserved = false;
  is_unspecified = false;
  v4 = some 134744072;
}

abbrev page : String
page = "https://example.org/a"

-- Every URL is one of a public host, which redirects to a loopback address.
abbrev net : Net
net = record {
  urlparse = λ s. record { scheme = "https"; hostname = some "example.org"; port = none };
  lower = λ s. s;
  getaddrinfo = λ host port. some ("8.8.8.8" ∷ []);
  ip_address = λ s. some public_ip;
  redirects = λ s. "http://127.0.0.1/" ∷ "https://example.org/b" ∷ [];
  body = λ s. "text";
}

accepted : validate_url net page false ≡ ok page
unfolding validate_url
accepted = refl

validate_url-IsSafe_example : (page ≡ page) × IsSafe net (net.urlparse page) false
validate_url-IsSafe_example = validate_url-IsSafe net page page false accepted

fetch-IsChecked_example : IsChecked net page false (fetch net page false)
fetch-IsChecked_example = fetch-IsChecked net page false

-- A loopback address between the first URL and the last one is requested, without any check.
requested : (fetch net page false).0 ≡ page ∷ "http://127.0.0.1/" ∷ "https://example.org/b" ∷ []
unfolding fetch fetched validate_url
requested = refl
