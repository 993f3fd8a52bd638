-- ===== src/Binary/ParamId/Split.antt =====
-- How `split` cuts a text at its first delimiter.
use mathlib.Core.List.{append_assoc, append-nil}
use opc_ua_server.Prelude.{
  ℕ, ◌≡◌, ◌≢◌, refl, inl, inr, List, [], ◌∷◌, ◌++◌, Text, All, ◌==◌, Bool-cases, arith,
}
use opc_ua_server.Binary.ParamId.{split, split_onto}

-- The delimiter does not occur.
abbrev pub Avoids : ℕ → Text → Type 0
Avoids d = All (λ c. c ≢ d)

split_onto-append :
    (piece s rest : Text) (d : ℕ)
    → Avoids d s
    → split_onto piece (s ++ (d ∷ rest)) d ≡ (piece ++ s) ∷ split_onto [] rest d
unfolding split_onto
split_onto-append [] [] rest d h = ground arith
split_onto-append (p ∷ piece) [] rest d h = ground (arith, append-nil piece)
split_onto-append [] (c ∷ s) rest d h = ground (arith, split_onto-append (c ∷ []) s rest d h.1)
split_onto-append (p ∷ piece) (c ∷ s) rest d h =
    ground (
      arith,
      split_onto-append ((p ∷ piece) ++ (c ∷ [])) s rest d h.1,
      append_assoc piece (c ∷ []) s,
    )

-- The first piece ends at the first delimiter.
pub split-append :
    (s rest : Text) (d : ℕ) → Avoids d s → split (s ++ (d ∷ rest)) d ≡ s ∷ split rest d
unfolding split
split-append s rest d h = split_onto-append [] s rest d h

split_onto_last :
    (p : ℕ) (piece s : Text) (d : ℕ)
    → Avoids d s
    → split_onto (p ∷ piece) s d ≡ ((p ∷ piece) ++ s) ∷ []
unfolding split_onto
split_onto_last p piece [] d h = rw (append-nil piece)
split_onto_last p piece (c ∷ s) d h =
    ground (arith, split_onto_last p (piece ++ (c ∷ [])) s d h.1, append_assoc piece (c ∷ []) s)

-- A text without the delimiter is one piece, unless it is empty.
pub split_last : (c : ℕ) (s : Text) (d : ℕ) → Avoids d (c ∷ s) → split (c ∷ s) d ≡ (c ∷ s) ∷ []
unfolding split split_onto
split_last c s d h = ground (arith, split_onto_last c [] s d h.1)

split_onto-cons :
    (p : ℕ) (piece s : Text) (d : ℕ)
    → (q : Text) × (qs : List Text) × (split_onto (p ∷ piece) s d ≡ q ∷ qs)
unfolding split_onto
split_onto-cons p piece [] d = (p ∷ piece, [], refl)
split_onto-cons p piece (c ∷ s) d = elim (Bool-cases (c == d)) [
  | inl hit ↦ (p ∷ piece, split_onto [] s d, rw (hit, split_onto))
  | inr miss ↦ rw (miss, split_onto) (split_onto-cons p (piece ++ (c ∷ [])) s d)
]

-- A text that is not empty has a first piece.
pub split-cons :
    (c : ℕ) (s : Text) (d : ℕ) → (q : Text) × (qs : List Text) × (split (c ∷ s) d ≡ q ∷ qs)
unfolding split split_onto
split-cons c s d = elim (Bool-cases (c == d)) [
  | inl hit ↦ ([], split_onto [] s d, rw (hit, split_onto))
  | inr miss ↦ rw (miss, split_onto) (split_onto-cons c [] s d)
]

-- The same for a text that is known to be not empty.
pub split_whole :
    (s : Text) (c : ℕ) (r : Text) (d : ℕ) → s ≡ c ∷ r → Avoids d s → split s d ≡ s ∷ []
split_whole s c r d e h = rw e (split_last c r d (rw e at h))
