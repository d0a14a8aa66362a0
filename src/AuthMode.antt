-- ===== src/AuthMode.antt =====
-- crates/lm-resizer-core/src/auth_mode.rs and compression_policy.rs: the class of a request from its
-- headers, and the compression policy of a class. Warning lines are left out.
pub mod Headers
pub mod Rules
use lm_resizer.Base.{
  ℕ, zero, suc, String, Bool, true, false, ◌||◌, not, Option, none, some, List, [], ◌∷◌, any, drop,
  length, Bytes, codes, contains, starts_with, is_empty, leb, ltb, ◌==◌, if◌then◌else◌, is_some,
  to_ascii_lowercase, unwrap_or, ◌>>=◌,
}
use lm_resizer.AuthMode.Headers.{HeaderMap}

pub data AuthMode : Type 0 where
  payg oauth subscription : AuthMode

pub as_str : AuthMode → String
as_str payg = "payg"
as_str oauth = "oauth"
as_str subscription = "subscription"

abbrev pub subscription_ua_prefixes : List Bytes
subscription_ua_prefixes =
    codes "claude-cli/"
    ∷ codes "claude-code/"
    ∷ codes "codex-cli/"
    ∷ codes "cursor/"
    ∷ codes "claude-vscode/"
    ∷ codes "github-copilot/"
    ∷ codes "anthropic-cli/"
    ∷ codes "antigravity/"
    ∷ []

-- `auth.strip_prefix(p)`.
abbrev pub strip_prefix : Bytes → Bytes → Option Bytes
strip_prefix p s = if starts_with p s then some (drop (length p) s) else none

-- `token.split('.').count()`.
abbrev pub segments : Bytes → ℕ
segments [] = 1
segments (c ∷ s) = let rest = segments s in if c == b'.' then suc rest else rest

-- The shapes of a bearer token, in order; `none` falls through to the other headers.
unfoldable pub bearer_mode : Bytes → Option AuthMode
bearer_mode token =
    if starts_with (codes "sk-ant-oat-") token
    then some oauth
    else if starts_with (codes "sk-ant-api") token || starts_with (codes "sk-") token
    then some payg
    else if leb 3 (segments token)
    then some oauth
    else none

-- The `authorization` header: a bearer token, another scheme, or nothing.
unfoldable pub authorization_mode : Bytes → Option AuthMode
authorization_mode auth = elim (strip_prefix (codes "Bearer ") auth) [
  | some token ↦ bearer_mode token
  | none ↦ if not (is_empty auth) then some oauth else none
]

module _ {H V : Type 0} (hm : HeaderMap H V) where
  -- The text of a header; an absent or an unreadable one is the empty text.
  abbrev pub text_of : H → String → Bytes
  text_of headers name = unwrap_or (hm.get headers name >>= hm.to_str) []

  -- The vendors' API-key headers, and the default.
  unfoldable pub vendor_mode : H → AuthMode
  vendor_mode headers =
      if is_some (hm.get headers "x-api-key")
      then payg
      else if is_some (hm.get headers "x-goog-api-key")
      then payg
      else payg

  unfoldable pub classify : H → AuthMode
  classify headers =
      let ua_owned = to_ascii_lowercase (text_of headers "user-agent") in
      if any (λ prefix. contains prefix ua_owned) subscription_ua_prefixes
      then subscription
      else unwrap_or (authorization_mode (text_of headers "authorization")) (vendor_mode headers)

-- The `f32` ratio is kept in hundredths.
pub record CompressionPolicy : Type 0 where
  pub live_zone_only : Bool
  pub cache_aligner_enabled : Bool
  pub volatile_token_threshold : ℕ
  pub max_lossy_ratio : ℕ
  pub toin_read_only : Bool

unfoldable pub for_mode : AuthMode → CompressionPolicy
for_mode payg = record {
  live_zone_only = false;
  cache_aligner_enabled = true;
  volatile_token_threshold = 128;
  max_lossy_ratio = 45;
  toin_read_only = false;
}
for_mode oauth = record {
  live_zone_only = false;
  cache_aligner_enabled = true;
  volatile_token_threshold = 128;
  max_lossy_ratio = 45;
  toin_read_only = false;
}
for_mode subscription = record {
  live_zone_only = true;
  cache_aligner_enabled = false;
  volatile_token_threshold = 32;
  max_lossy_ratio = 25;
  toin_read_only = true;
}
