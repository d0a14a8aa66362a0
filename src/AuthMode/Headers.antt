-- ===== src/AuthMode/Headers.antt =====
-- What crates/lm-resizer-core/src/auth_mode.rs uses of the crate `http`, which is not part of the
-- repository: a parameter, of which the classifier relies on no law.
use lm_resizer.Base.{String, Bytes, Option}

pub record HeaderMap (H V : Type 0) : Type 0 where
  pub get : H → String → Option V
  -- `to_str().ok()`.
  pub to_str : V → Option Bytes
