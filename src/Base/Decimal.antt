-- ===== src/Base/Decimal.antt =====
-- Rust's decimal rendering of an unsigned integer.
use Prim.Native.Nat.{ℕ, zero, suc, ◌+◌, ◌-◌, ◌*◌, ◌/◌, ◌%◌, ◌≤◌, ◌<◌}
use mathlib.Core.Path.{◌≡◌, refl, sym, ap, ◌∙◌}
use mathlib.Core.Logic.{inl, inr, ◌≢◌}
use mathlib.Core.List.{[], ◌∷◌, ◌++◌}
use native.Mathlib.Omega.{arith}
use lm_resizer.Base.Tests.{ltb, if◌then◌else◌, Bool-cases}
use lm_resizer.Base.Lists.{All, All-append}
use lm_resizer.Base.Text.{Bytes}

unfoldable pub decimal_fuel : ℕ → ℕ → Bytes
decimal_fuel zero n = []
decimal_fuel (suc fuel) n =
    let more = decimal_fuel fuel (n / 10) in
    if ltb n 10 then (48 + n) ∷ [] else more ++ (48 + n % 10) ∷ []

-- `format!("{n}")`. A number has fewer digits than it has units, so the fuel is enough.
unfoldable pub decimal : ℕ → Bytes
unfolding decimal_fuel
decimal n = decimal_fuel (n + 1) n

abbrev pub IsDigit : ℕ → Type 0
IsDigit c = (48 ≤ c) × (c ≤ 57)

-- The number that a row of digits stands for, read after `acc`.
abbrev pub value : ℕ → Bytes → ℕ
value acc [] = acc
value acc (c ∷ s) = value (acc * 10 + (c - 48)) s

value-append_last : (acc c : ℕ) (s : Bytes) → value acc (s ++ c ∷ []) ≡ value acc s * 10 + (c - 48)
value-append_last acc c [] = refl
value-append_last acc c (d ∷ s) = value-append_last (acc * 10 + (d - 48)) c s

value-decimal_fuel : (fuel n : ℕ) → n < fuel → value 0 (decimal_fuel fuel n) ≡ n
unfolding decimal_fuel
value-decimal_fuel zero n h = elim h [ ]
value-decimal_fuel (suc fuel) n h = elim (Bool-cases (ltb n 10)) [
  | inl small ↦ rw small (ground arith)
  | inr large ↦
      let ih = value-decimal_fuel fuel (n / 10) (ground arith) in
      rw large (rw (value-append_last 0 (48 + n % 10)) (omega (arith, ih)))
]

digits-decimal_fuel : (fuel n : ℕ) → All IsDigit (decimal_fuel fuel n)
unfolding decimal_fuel
digits-decimal_fuel zero n = tt
digits-decimal_fuel (suc fuel) n = elim (Bool-cases (ltb n 10)) [
  | inl small ↦ rw small (ground arith)
  | inr large ↦
      rw large (
        All-append IsDigit _ ((48 + n % 10) ∷ []) (digits-decimal_fuel fuel (n / 10)) (omega arith))
]

pub digits-decimal : (n : ℕ) → All IsDigit (decimal n)
unfolding decimal
digits-decimal n = digits-decimal_fuel (n + 1) n

pub decimal-injective : (m n : ℕ) → decimal m ≡ decimal n → m ≡ n
unfolding decimal
decimal-injective m n e =
    sym (value-decimal_fuel (m + 1) m (omega arith))
    ∙ (ap (value 0) e ∙ value-decimal_fuel (n + 1) n (omega arith))

pub value-decimal : (n : ℕ) → value 0 (decimal n) ≡ n
unfolding decimal
value-decimal n = value-decimal_fuel (n + 1) n (omega arith)

pub append_last-ne-nil : (s : Bytes) (c : ℕ) → s ++ c ∷ [] ≢ []
append_last-ne-nil [] c e = cc
append_last-ne-nil (d ∷ s) c e = cc

pub decimal-ne-nil : (n : ℕ) → decimal n ≢ []
unfolding decimal decimal_fuel
decimal-ne-nil n e = ground (arith, append_last-ne-nil (decimal_fuel n (n / 10)) (48 + n % 10))
