-- ===== src/Tests/Clients.antt =====
-- Requests for crates/lm-resizer-core/src/auth_mode.rs, their headers an association list.
use lm_resizer.AuthMode.Rules.{classify_lem, for_mode-classify}
use lm_resizer.AuthMode.{bearer_mode, authorization_mode, classify, for_mode, oauth, subscription}
use lm_resizer.Base.{
  String, ◌≡◌, refl, true, false, Option, none, some, List, [], ◌∷◌, Bytes, codes, if◌then◌else◌,
}
use text.Mathlib.Text.{◌==◌ as str_eq}
use lm_resizer.AuthMode.Headers.{HeaderMap}

abbrev Headers : Type 0
Headers = List (String × Bytes)

abbrev find : Headers → String → Option Bytes
find [] name = none
find ((n, v) ∷ headers) name = if str_eq n name then some v else find headers name

abbrev plain : HeaderMap Headers Bytes
plain = record { get = find; to_str = λ v. some v }

-- A Claude Code session carries an OAuth token, and is a subscription all the same.
abbrev code_session : Headers
code_session =
    ("user-agent", codes "Claude-CLI/1.0") ∷ ("authorization", codes "Bearer sk-ant-oat-1") ∷ []

abbrev jwt_client : Headers
jwt_client = ("authorization", codes "Bearer a.b.c") ∷ ("x-api-key", codes "k") ∷ []

classify_of_code_session : classify plain code_session ≡ subscription
unfolding classify
classify_of_code_session = refl

classify_of_jwt_client : classify plain jwt_client ≡ oauth
unfolding classify authorization_mode bearer_mode
classify_of_jwt_client = refl

classify_example : classify plain jwt_client ≡ oauth
classify_example = classify_lem plain jwt_client

for_mode-classify_example :
    let policy = for_mode (classify plain code_session) in
    (policy.live_zone_only ≡ true)
    × (policy.cache_aligner_enabled ≡ false)
    × (policy.toin_read_only ≡ true)
for_mode-classify_example = for_mode-classify plain code_session

-- More than three segments count as well.
four_segments_run : bearer_mode (codes "a.b.c.d") ≡ some oauth
unfolding bearer_mode
four_segments_run = refl
