-- ===== src/Security/Policy.antt =====
-- packages/core/src/security/url-policy.ts: the check of a URL. `new URL` is a parameter: it gives the
-- protocol and the host name of a text that is a URL, and none where it throws; `to_lower` is toLowerCase.
use Prim.Native.String.{◌∷◌, ◌++◌}
use text.Mathlib.Text.{starts_with}
use anyhook.Base.{
  Bool, true, false, ◌&&◌, ◌||◌, String, Option, none, some, List, [], any, map, ◌==◌,
  if◌then◌else◌,
}
use anyhook.Base.Split.{has_char}
use anyhook.Base.Text.{ends_with}
use anyhook.Engine.{or_default}
use anyhook.Ports.{UrlVerdict}
use anyhook.Security.{Octets, ipv4_to_octets, is_blocked_ipv4, looks_numeric, is_blocked_ipv6}

pub record UrlPolicyOptions : Type 0 where
  pub allow_http : Option Bool
  pub extra_deny : Option (List String)

pub record Parsed : Type 0 where
  pub protocol : String
  pub hostname : String

abbrev pub allow : UrlVerdict
allow = record { allowed = true; reason = none }

abbrev pub refuse : String → UrlVerdict
refuse reason = record { allowed = false; reason = some reason }

-- scheme.replace(':', ''), which takes out the first colon
unfoldable pub without_colon : String → String
without_colon String.[] = ""
without_colon (c ∷ s) = let rest = without_colon s in if (c ∷ "") == ":" then s else c ∷ rest

module _ (to_lower : String → String) (new_url : String → Option Parsed)
    (opts : UrlPolicyOptions) where
  unfoldable pub is_denied : String → Bool
  is_denied host = any (λ s. s == host) (map to_lower (or_default opts.extra_deny []))

  -- a host that is no IPv4 literal
  unfoldable pub check_name : String → String → UrlVerdict
  check_name hostname host =
      if looks_numeric host
      then refuse "ambiguous_numeric_host"
      else if has_char ":" host || (starts_with hostname "[" && ends_with hostname "]")
      then (if is_blocked_ipv6 to_lower hostname then refuse "private_or_reserved_ipv6" else allow)
      else allow

  unfoldable pub check_literal : String → String → Option Octets → UrlVerdict
  unfolding check_name
  check_literal hostname host none = check_name hostname host
  check_literal hostname host (some v4) =
      if is_blocked_ipv4 v4 then refuse "private_or_reserved_ipv4" else allow

  unfoldable pub check_host : String → String → UrlVerdict
  unfolding is_denied check_literal
  check_host hostname host =
      if is_denied host
      then refuse "denied_host"
      else if (host == "localhost") || ends_with host ".localhost"
      then refuse "loopback_hostname"
      else check_literal hostname host (ipv4_to_octets host)

  unfoldable pub check_parsed : Option Parsed → UrlVerdict
  unfolding check_host without_colon
  check_parsed none = refuse "invalid_url"
  check_parsed (some parsed) =
      if (parsed.protocol == "https:")
        || (or_default opts.allow_http true && (parsed.protocol == "http:"))
      then check_host parsed.hostname (to_lower parsed.hostname)
      else refuse ("blocked_scheme:" ++ without_colon parsed.protocol)

  unfoldable pub check : String → UrlVerdict
  unfolding check_parsed
  check url = check_parsed (new_url url)
