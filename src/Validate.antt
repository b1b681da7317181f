-- ===== src/Validate.antt =====
-- crates/bridge/src/validate.rs: which UnifiedPush endpoints the bridge posts to. `Url` is what the
-- crate url makes of a text.
pub mod Accepted
use pushcompat.Prelude.{
  List, [], ◌∷◌, ◌++◌, Option, none, some, Bool, true, false, not, ◌&&◌, ◌||◌, Text, bytes, ◌=?◌,
  any, if◌then◌else◌, to_ascii_lowercase, ends_with,
}

pub data Host : Type 0 where
  domain : Text → Host
  ip_address : Text → Host

pub record Url : Type 0 where
  pub scheme : Text
  pub username : Text
  pub password : Option Text
  pub host : Option Host

pub data EndpointError : Type 0 where
  invalid not_https has_credentials not_a_domain no_host not_allowed not_in_allowlist :
      EndpointError

pub data Checked : Type 0 where
  accepted : Checked
  rejected : EndpointError → Checked

abbrev pub is_some {ℓ} : {A : Type ℓ} → Option A → Bool
is_some none = false
is_some (some a) = true

abbrev pub is_empty : Text → Bool
is_empty [] = true
is_empty (b ∷ bs) = false

unfoldable pub is_local : Text → Bool
is_local host =
    host =? bytes "localhost"
    || (ends_with (bytes ".localhost") host || ends_with (bytes ".local") host)

-- The host itself or a domain below it.
unfoldable pub matches_host : Text → Text → Bool
matches_host host allowed =
    let a = to_ascii_lowercase allowed in host =? a || ends_with (bytes "." ++ a) host

unfoldable pub is_allowed : Text → List Text → Bool
unfolding matches_host
is_allowed host [] = true
is_allowed host (a ∷ allowed_hosts) = any (matches_host host) (a ∷ allowed_hosts)

unfoldable pub check_host : Text → List Text → Checked
unfolding is_local is_allowed
check_host host allowed_hosts =
    if is_local host
    then rejected not_allowed
    else if is_allowed host allowed_hosts
    then accepted
    else rejected not_in_allowlist

unfoldable pub check_url : Url → List Text → Checked
unfolding check_host
check_url url allowed_hosts =
    if not (url.scheme =? bytes "https")
    then rejected not_https
    else if not (is_empty url.username) || is_some url.password
    then rejected has_credentials
    else elim url.host [
      | none ↦ rejected no_host
      | some (ip_address _) ↦ rejected not_a_domain
      | some (domain d) ↦ check_host (to_ascii_lowercase d) allowed_hosts
    ]

-- `parse` is `url::Url::parse`.
unfoldable pub validate_endpoint : (Text → Option Url) → Text → List Text → Checked
unfolding check_url
validate_endpoint parse endpoint allowed_hosts = elim (parse endpoint) [
  | none ↦ rejected invalid
  | some url ↦ check_url url allowed_hosts
]
