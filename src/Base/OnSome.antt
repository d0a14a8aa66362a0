-- ===== src/Base/OnSome.antt =====
-- A property of what an `Option` has, where it has anything, and of both branches of a conditional.
use mathlib.Core.Path.{◌≡◌, refl, subst}
use mathlib.Core.Bool.{Bool, true, false}
use mathlib.Core.Option.{Option, none, some}
use lm_resizer.Base.Tests.{if◌then◌else◌, ◌>>=◌}

abbrev pub OnSome {κ} : {A : Type 0} → (A → Type κ) → Option A → Type κ
OnSome P none = Unit
OnSome P (some a) = P a

pub OnSome-bind {κ} :
    {A B : Type 0} (P : B → Type κ) (o : Option A) (f : A → Option B)
    → ((a : A) → o ≡ some a → OnSome P (f a))
    → OnSome P (o >>= f)
OnSome-bind P none f h = tt
OnSome-bind P (some a) f h = h a refl

pub OnSome-each {κ} :
    {A : Type 0} (P : A → Type κ) (o : Option A) → ((a : A) → o ≡ some a → P a) → OnSome P o
OnSome-each P none h = tt
OnSome-each P (some a) h = h a refl

pub OnSome-at {κ} :
    {A : Type 0} (P : A → Type κ) (o : Option A) (a : A) → OnSome P o → o ≡ some a → P a
OnSome-at P o a h e = subst (OnSome P) e h

pub OnSome-map {κ ℓ} :
    {A : Type 0} (P : A → Type κ) (Q : A → Type ℓ) (o : Option A)
    → ((a : A) → P a → Q a)
    → OnSome P o
    → OnSome Q o
OnSome-map P Q none f h = tt
OnSome-map P Q (some a) f h = f a h

pub if_holds {κ} :
    {A : Type 0} (P : A → Type κ) (c : Bool) (a b : A) → P a → P b → P (if c then a else b)
if_holds P true a b h k = h
if_holds P false a b h k = k
