-- ===== src/Validate/Accepted.antt =====
-- crates/bridge/src/validate.rs: which endpoints are accepted.
use mathlib.Core.Option.{some-injective}
use pushcompat.Prelude.{
  ◌≡◌, refl, sym, subst, ◌↔◌, List, [], ◌∷◌, Option, none, some, true, false, Text, bytes, =?_iff,
  to_ascii_lowercase, Option-cases, inl, inr, arith,
}
use pushcompat.Validate.{
  domain, ip_address, Url, accepted, is_some, is_empty, is_local, is_allowed, check_host, check_url,
  validate_endpoint,
}

-- What the bridge asks of an endpoint's URL.
pub record Postable (url : Url) (allowed_hosts : List Text) : Type 0 where
  pub name : Text
  pub https : url.scheme ≡ bytes "https"
  pub no_username : url.username ≡ []
  pub no_password : url.password ≡ none
  pub host : url.host ≡ some (domain name)
  pub remote : is_local (to_ascii_lowercase name) ≡ false
  pub allowed : is_allowed (to_ascii_lowercase name) allowed_hosts ≡ true

check_host_iff :
    (host : Text) (allowed_hosts : List Text)
    → (check_host host allowed_hosts ≡ accepted)
      ↔ ((is_local host ≡ false) × (is_allowed host allowed_hosts ≡ true))
unfolding check_host
check_host_iff host allowed_hosts = ground arith

is_empty_iff : (t : Text) → (is_empty t ≡ true) ↔ (t ≡ [])
is_empty_iff [] = ground arith
is_empty_iff (b ∷ t) = ground arith

is_some_iff : (o : Option Text) → (is_some o ≡ false) ↔ (o ≡ none)
is_some_iff none = ground arith
is_some_iff (some t) = ground arith

check_url_sound :
    (url : Url) (allowed_hosts : List Text)
    → check_url url allowed_hosts ≡ accepted
    → Postable url allowed_hosts
unfolding check_url
check_url_sound url allowed_hosts e = elim (Option-cases url.host) [
  | inl h ↦ ground (arith, e, h)
  | inr (ip_address a, h) ↦ ground (arith, e, h)
  | inr (domain d, h) ↦
      let k = (check_host_iff (to_ascii_lowercase d) allowed_hosts).0 (ground (arith, e, h)) in
      record {
        name = d;
        https = ground (arith, e, =?_iff url.scheme (bytes "https"));
        no_username = ground (arith, e, is_empty_iff url.username);
        no_password = ground (arith, e, is_some_iff url.password);
        host = h;
        remote = k.0;
        allowed = k.1;
      }
]

check_url_complete :
    (url : Url) (allowed_hosts : List Text)
    → Postable url allowed_hosts
    → check_url url allowed_hosts ≡ accepted
unfolding check_url
check_url_complete url allowed_hosts p = ground (
  arith,
  p.host,
  is_empty_iff url.username,
  is_some_iff url.password,
  =?_iff url.scheme (bytes "https"),
  p.no_username,
  p.no_password,
  (check_host_iff (to_ascii_lowercase p.name) allowed_hosts).1 (p.remote, p.allowed),
)

-- An endpoint is accepted exactly if it parses as a URL with the scheme https, no credentials, and
-- a domain for a host that is not local and that the list of allowed hosts has, if there is one.
pub validate_endpoint_iff :
    (parse : Text → Option Url) (endpoint : Text) (allowed_hosts : List Text)
    → (validate_endpoint parse endpoint allowed_hosts ≡ accepted)
      ↔ ((url : Url) × (parse endpoint ≡ some url) × Postable url allowed_hosts)
unfolding validate_endpoint
validate_endpoint_iff parse endpoint allowed_hosts = elim (Option-cases (parse endpoint)) [
  | inl e ↦ rw (e, validate_endpoint) ((λ k. ground (arith, k)), (λ k. ground (arith, k.1)))
  | inr (url, e) ↦
      rw (e, validate_endpoint)
        (
          (λ k. (url, refl, check_url_sound url allowed_hosts k)),
          (λ (other, same, p).
              check_url_complete url allowed_hosts
                (subst (λ u. Postable u allowed_hosts) (sym (some-injective url other same)) p)),
        )
]
