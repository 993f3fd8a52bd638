-- ===== src/Prelude/Decimal.antt =====
-- Decimal text of a number, as `operator<<` prints it, and the digits that `operator>>` reads.
use Prim.Native.Nat.{ℕ, zero, suc, ◌+◌, ◌-◌, ◌*◌, ◌/◌, ◌%◌, ◌≤◌, ◌<◌}
use mathlib.Core.Path.{◌≡◌, refl, ◌∙◌}
use mathlib.Core.Logic.{inl, inr}
use mathlib.Core.Bool.{Bool, true, ◌&&◌}
use mathlib.Core.List.{[], ◌∷◌}
use native.Mathlib.Omega.{arith}
use opc_ua_server.Prelude.Tests.{ltb, leb, if◌then◌else◌, Bool-cases}
use opc_ua_server.Prelude.Lists.{All}
use opc_ua_server.Prelude.Texts.{Text}
use opc_ua_server.Prelude.Int.{ℤ, pos, negsuc}

-- Prepends the digits of `n`; the fuel exceeds `n`.
digits_onto : ℕ → ℕ → Text → Text
digits_onto zero n acc = acc
digits_onto (suc f) n acc =
    let more = digits_onto f (n / 10) ((n % 10 + b'0') ∷ acc) in
    if ltb n 10 then (n + b'0') ∷ acc else more

unfoldable pub show_nat : ℕ → Text
unfolding digits_onto
show_nat n = digits_onto (suc n) n []

abbrev pub is_digit : ℕ → Bool
is_digit c = leb b'0' c && leb c b'9'

-- The number that the leading digits denote, after the digits that make up `acc`.
unfoldable pub read_digits : ℕ → Text → ℕ
read_digits acc [] = acc
read_digits acc (c ∷ s) =
    let more = read_digits (10 * acc + (c - b'0')) s in if is_digit c then more else acc

-- Reading the last digit after the others.
last_digit : (n : ℕ) (acc : Text) → read_digits (n / 10) ((n % 10 + 48) ∷ acc) ≡ read_digits n acc
unfolding read_digits
last_digit n acc =
    let e : 10 * (n / 10) + (n % 10 + 48 - 48) ≡ n = omega arith in
    let d : is_digit (n % 10 + 48) ≡ true = ground arith in rw (d, e)

read_digits-digits_onto :
    (f n : ℕ) (acc : Text) → n < f → read_digits 0 (digits_onto f n acc) ≡ read_digits n acc
unfolding read_digits digits_onto
read_digits-digits_onto zero n acc h = elim h [ ]
read_digits-digits_onto (suc f) n acc h = elim (Bool-cases (ltb n 10)) [
  | inl small ↦ rw small (ground arith)
  | inr big ↦
      rw big
        (read_digits-digits_onto f (n / 10) ((n % 10 + 48) ∷ acc) (ground arith) ∙ last_digit n acc)
]

pub read_digits-show_nat : (n : ℕ) → read_digits 0 (show_nat n) ≡ n
unfolding show_nat read_digits
read_digits-show_nat n = read_digits-digits_onto (suc n) n [] (omega arith)

-- A signed number.
unfoldable pub show_int : ℤ → Text
show_int (pos n) = show_nat n
show_int (negsuc n) = b'-' ∷ show_nat (n + 1)

-- The printed digits are digits, and there is one.
abbrev pub Digit : ℕ → Type 0
Digit c = (b'0' ≤ c) × (c ≤ b'9')

digits_onto-Digit : (f n : ℕ) (acc : Text) → All Digit acc → All Digit (digits_onto f n acc)
unfolding digits_onto
digits_onto-Digit zero n acc h = h
digits_onto-Digit (suc f) n acc h = elim (Bool-cases (ltb n 10)) [
  | inl small ↦ rw small (ground arith, h)
  | inr big ↦ rw big (digits_onto-Digit f (n / 10) ((n % 10 + b'0') ∷ acc) (omega arith, h))
]

digits_onto-cons :
    (f n c : ℕ) (acc : Text) → (d : ℕ) × (s : Text) × (digits_onto f n (c ∷ acc) ≡ d ∷ s)
unfolding digits_onto
digits_onto-cons zero n c acc = (c, acc, refl)
digits_onto-cons (suc f) n c acc = elim (Bool-cases (ltb n 10)) [
  | inl small ↦ (n + b'0', c ∷ acc, rw small)
  | inr big ↦ rw big (digits_onto-cons f (n / 10) (n % 10 + b'0') (c ∷ acc))
]

pub show_nat-Digit : (n : ℕ) → All Digit (show_nat n)
unfolding show_nat
show_nat-Digit n = digits_onto-Digit (suc n) n [] tt

pub show_nat-cons : (n : ℕ) → (d : ℕ) × (s : Text) × (show_nat n ≡ d ∷ s)
unfolding show_nat
show_nat-cons n = elim (Bool-cases (ltb n 10)) [
  | inl small ↦ (n + b'0', [], rw small)
  | inr big ↦ rw big (digits_onto-cons n (n / 10) (n % 10 + b'0') [])
]
