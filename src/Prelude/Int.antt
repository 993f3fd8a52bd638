-- ===== src/Prelude/Int.antt =====
-- Integers over the native numbers, and the wrap-around of a conversion to a machine integer.
use Prim.Native.Nat.{ℕ, ◌-◌, ◌/◌, ◌%◌, ◌^◌, ◌<◌}
use mathlib.Core.Path.{◌≡◌}
use mathlib.Core.Logic.{◌↔◌}
use mathlib.Core.Bool.{Bool, true, false}
use native.Mathlib.Omega.{arith}
use opc_ua_server.Prelude.Tests.{ltb, ◌==◌, if◌then◌else◌}

-- `negsuc n` is -(n + 1).
pub data ℤ : Type 0 where
  pos : ℕ → ℤ
  negsuc : ℕ → ℤ

abbrev pub int_eq : ℤ → ℤ → Bool
int_eq (pos a) (pos b) = a == b
int_eq (pos a) (negsuc b) = false
int_eq (negsuc a) (pos b) = false
int_eq (negsuc a) (negsuc b) = a == b

pub int_eq_iff : (a b : ℤ) → (int_eq a b ≡ true) ↔ (a ≡ b)
int_eq_iff (pos a) (pos b) = (λ h. ground arith, λ h. ground arith)
int_eq_iff (pos a) (negsuc b) = (λ h. cc, λ h. cc)
int_eq_iff (negsuc a) (pos b) = (λ h. cc, λ h. cc)
int_eq_iff (negsuc a) (negsuc b) = (λ h. ground arith, λ h. ground arith)

-- The value of `z` modulo `m`: the conversion to an unsigned type with `m` values.
abbrev pub to_unsigned : ℕ → ℤ → ℕ
to_unsigned m (pos n) = n % m
to_unsigned m (negsuc n) = m - 1 - n % m

-- The two's complement reading of `u`, which is below `m`.
abbrev pub as_signed : ℕ → ℕ → ℤ
as_signed m u = if ltb u (m / 2) then pos u else negsuc (m - 1 - u)

-- The conversion to a signed type with `m` values.
abbrev pub to_signed : ℕ → ℤ → ℤ
to_signed m z = as_signed m (to_unsigned m z)

-- The values of a signed type with `2 * half` values.
abbrev pub InSigned : ℕ → ℤ → Type 0
InSigned half (pos n) = n < half
InSigned half (negsuc n) = n < half

-- The numbers of values of the C++ types on the target, an ARM hard-float (ILP32) Linux.
abbrev pub char_mod : ℕ
char_mod = 2 ^ 8

abbrev pub short_mod : ℕ
short_mod = 2 ^ 16

abbrev pub int_mod : ℕ
int_mod = 2 ^ 32

abbrev pub long_mod : ℕ
long_mod = 2 ^ 32

abbrev pub llong_mod : ℕ
llong_mod = 2 ^ 64

-- `char` is unsigned on the target.
abbrev pub char_to_schar : ℕ → ℤ
char_to_schar c = as_signed char_mod (c % char_mod)

abbrev pub schar_to_char : ℤ → ℕ
schar_to_char z = to_unsigned char_mod z

pub char_to_schar-schar_to_char : (z : ℤ) → InSigned 128 z → char_to_schar (schar_to_char z) ≡ z
char_to_schar-schar_to_char (pos n) h = ground arith
char_to_schar-schar_to_char (negsuc n) h = ground arith

pub schar_to_char-char_to_schar : (c : ℕ) → c < 256 → schar_to_char (char_to_schar c) ≡ c
schar_to_char-char_to_schar c h = ground arith
