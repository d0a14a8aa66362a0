-- ===== src/AuthMode/Rules.antt =====
-- The decision order that the comment on `classify` in
-- crates/lm-resizer-core/src/auth_mode.rs documents, and what the policy draws from it.
use lm_resizer.AuthMode.{
  AuthMode, subscription_ua_prefixes, segments, bearer_mode, authorization_mode, text_of,
  vendor_mode, classify, for_mode, payg, oauth, subscription,
}
use lm_resizer.Base.{
  ◌≡◌, inl, inr, refl, Bool, true, not, [], ◌∷◌, any, drop, Bytes, codes, contains, starts_with,
  is_empty, leb, ◌&&◌, ◌||◌, if◌then◌else◌, to_ascii_lowercase, Bool-cases, arith, unwrap_or,
}
use lm_resizer.AuthMode.Headers.{HeaderMap}

-- The texts of the two headers that a request is judged by.
abbrev pub is_subscription_client : Bytes → Bool
is_subscription_client user_agent =
    any (λ prefix. contains prefix (to_ascii_lowercase user_agent)) subscription_ua_prefixes

-- A bearer token of the OAuth shape, or one of three or more segments between dots
-- that does not begin like an API key.
abbrev pub is_oauth_token : Bytes → Bool
is_oauth_token token =
    starts_with (codes "sk-ant-oat-") token
    || (not (starts_with (codes "sk-") token) && leb 3 (segments token))

-- An OAuth token behind `Bearer`, or any other scheme.
abbrev pub is_oauth_authorization : Bytes → Bool
is_oauth_authorization auth =
    if starts_with (codes "Bearer ") auth then is_oauth_token (drop 7 auth) else not (is_empty auth)

-- Every key of the one vendor is a key of the broader shape.
api_key-sk :
    (token : Bytes)
    → starts_with (codes "sk-ant-api") token ≡ true
    → starts_with (codes "sk-") token ≡ true
api_key-sk [] h = h
api_key-sk (a ∷ []) h = ground arith
api_key-sk (a ∷ b ∷ []) h = ground arith
api_key-sk (a ∷ b ∷ c ∷ rest) h = ground arith

bearer_mode_lem :
    (token : Bytes) (m : AuthMode)
    → m ≡ payg
    → unwrap_or (bearer_mode token) m ≡ (if is_oauth_token token then oauth else payg)
unfolding bearer_mode
bearer_mode_lem token m h = ground (arith, api_key-sk token)

authorization_mode_lem :
    (auth : Bytes) (m : AuthMode)
    → m ≡ payg
    → unwrap_or (authorization_mode auth) m ≡ (if is_oauth_authorization auth then oauth else payg)
unfolding authorization_mode
authorization_mode_lem auth m h = elim (Bool-cases (starts_with (codes "Bearer ") auth)) [
  | inl bearer ↦ rw (bearer, authorization_mode) (bearer_mode_lem (drop 7 auth) m h)
  | inr other ↦ ground (arith, other)
]

module _ {H V : Type 0} (hm : HeaderMap H V) where
  vendor_mode-payg : (headers : H) → vendor_mode hm headers ≡ payg
  unfolding vendor_mode
  vendor_mode-payg headers = ground arith

  -- The class of a request is decided by two of its headers, an absent or unreadable one counting as
  -- empty: a user agent that names a subscription client in any letter case makes it a subscription;
  -- else a bearer token that begins with `sk-ant-oat-`, a bearer token of three or more segments
  -- between dots that does not begin with `sk-`, or a non-empty `authorization` of another scheme
  -- makes it OAuth; and every other request pays as it goes. The two API-key headers decide nothing.
  pub classify_lem :
      (headers : H)
      → classify hm headers ≡ (
          if is_subscription_client (text_of hm headers "user-agent")
          then subscription
          else if is_oauth_authorization (text_of hm headers "authorization")
          then oauth
          else payg)
  unfolding classify
  classify_lem headers =
      elim (Bool-cases (is_subscription_client (text_of hm headers "user-agent"))) [
        | inl cli ↦ rw (cli, classify) refl
        | inr other ↦
            rw (other, classify)
              (authorization_mode_lem (text_of hm headers "authorization") (vendor_mode hm headers)
                (vendor_mode-payg headers))
      ]

  -- The policy of a request keeps to the live zone, leaves out the cache aligner and does not write
  -- to the learning pool exactly when its user agent names a subscription client.
  pub for_mode-classify :
      (headers : H)
      → let policy = for_mode (classify hm headers) in
        (policy.live_zone_only ≡ is_subscription_client (text_of hm headers "user-agent"))
        × (policy.cache_aligner_enabled
            ≡ not (is_subscription_client (text_of hm headers "user-agent")))
        × (policy.toin_read_only ≡ is_subscription_client (text_of hm headers "user-agent"))
  unfolding for_mode
  for_mode-classify headers = ground (arith, classify_lem headers)
