-- ===== src/Prelude/Words.antt =====
-- Machine words, and the result of code that may fault.
use Prim.Native.Nat.{ℕ, ◌^◌}
use mathlib.Core.Path.{◌≡◌, refl}
use mathlib.Core.Logic.{◌⊎◌, inl, inr}

-- uint16_t and uint8_t: the values below these.
abbrev pub u16_mod : ℕ
u16_mod = 2 ^ 16

abbrev pub u8_mod : ℕ
u8_mod = 2 ^ 8

-- What the C code does where the language gives it no meaning, or where it never returns.
pub data Fault : Type 0 where
  hang out_of_bounds null_pointer uninitialised : Fault

pub data Run {ℓ} (A : Type ℓ) : Type ℓ where
  ok : A → Run A
  fault : Fault → Run A

infixl 5 ◌>>=◌
abbrev pub ◌>>=◌ {ℓ κ} : {A : Type ℓ} {B : Type κ} → Run A → (A → Run B) → Run B
ok a >>= f = f a
fault e >>= f = fault e

pub Run-cases {ℓ} :
    {A : Type ℓ} (r : Run A) → ((a : A) × (r ≡ ok a)) ⊎ ((f : Fault) × (r ≡ fault f))
Run-cases (ok a) = inl (a, refl)
Run-cases (fault f) = inr (f, refl)
