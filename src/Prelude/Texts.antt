-- ===== src/Prelude/Texts.antt =====
-- `std::string` as the list of its bytes, and what `c_str` leaves of it.
use Prim.Native.Nat.{ℕ}
use Prim.Native.Char.{code}
use Prim.Native.String.{String}
use mathlib.Core.Path.{◌≡◌, refl}
use mathlib.Core.Logic.{◌↔◌, ◌≢◌}
use mathlib.Core.Bool.{Bool, true, false, ◌&&◌}
use mathlib.Core.List.{List, [], ◌∷◌}
use native.Mathlib.Omega.{arith}
use opc_ua_server.Prelude.Tests.{◌==◌, if◌then◌else◌}
use opc_ua_server.Prelude.Lists.{All}

abbrev pub Text : Type 0
Text = List ℕ

-- A literal's bytes (ASCII).
abbrev pub bytes : String → Text
bytes String.[] = []
bytes (String.◌∷◌ c s) = code c ∷ bytes s

unfoldable pub text_eq : Text → Text → Bool
text_eq [] [] = true
text_eq [] (y ∷ ys) = false
text_eq (x ∷ xs) [] = false
text_eq (x ∷ xs) (y ∷ ys) = x == y && text_eq xs ys

pub text_eq_iff : (s t : Text) → (text_eq s t ≡ true) ↔ (s ≡ t)
unfolding text_eq
text_eq_iff [] [] = (λ _. refl, λ _. refl)
text_eq_iff [] (y ∷ ys) = (λ h. cc, λ h. cc)
text_eq_iff (x ∷ xs) [] = (λ h. cc, λ h. cc)
text_eq_iff (x ∷ xs) (y ∷ ys) =
    (λ h. ground (arith, text_eq_iff xs ys), λ h. ground (arith, text_eq_iff xs ys))

pub text_eq_refl : (s : Text) → text_eq s s ≡ true
text_eq_refl s = (text_eq_iff s s).1 refl

-- The bytes that a reader of a C string sees: those before the first NUL.
unfoldable pub c_str : Text → Text
c_str [] = []
c_str (c ∷ s) = if c == 0 then [] else c ∷ c_str s

-- No byte is NUL.
abbrev pub NoNul : Text → Type 0
NoNul = All (λ c. c ≢ 0)

pub c_str-eq_of_NoNul : (s : Text) → NoNul s → c_str s ≡ s
unfolding c_str
c_str-eq_of_NoNul [] h = refl
c_str-eq_of_NoNul (c ∷ s) h = ground (arith, c_str-eq_of_NoNul s h.1)

pub c_str-NoNul : (s : Text) → NoNul (c_str s)
unfolding c_str
c_str-NoNul [] = tt
c_str-NoNul (c ∷ s) = ground (arith, c_str-NoNul s)
