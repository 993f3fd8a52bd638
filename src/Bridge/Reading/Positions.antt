-- ===== src/Bridge/Reading/Positions.antt =====
-- The positions of the node ids that readValues asks for, and the search in its map.
use opc_ua_server.Prelude.{
  ℕ, suc, ◌≡◌, ◌⊎◌, refl, ap, true, Option, none, some, List, [], ◌∷◌, Bool-cases, text_eq_refl,
  inl, inr,
}
use opc_ua_server.Prelude.Int.{ℤ, int_eq, int_eq_iff}
use opc_ua_server.Prelude.Result.{Result, ok, throws, undefined}
use opc_ua_server.Io
use opc_ua_server.Bridge.Reading.{index_of}

-- The node ids of the calls that return one, with the positions of the calls from `i` on.
abbrev pub targets : ℕ → List (Result (Option Io.NodeId)) → List (Io.NodeId × ℕ)
targets i [] = []
targets i (ok (some id) ∷ rs) = (id, i) ∷ targets (suc i) rs
targets i (r ∷ rs) = targets (suc i) rs

-- An entry of a list of entries.
abbrev pub Entry : Io.NodeId → ℕ → List (Io.NodeId × ℕ) → Type 0
Entry id i [] = ⊥
Entry id i ((k, j) ∷ m) = ((k ≡ id) × (j ≡ i)) ⊎ Entry id i m

int_eq_refl : (z : ℤ) → int_eq z z ≡ true
int_eq_refl z = (int_eq_iff z z).1 refl

pub equals_refl : (id : Io.NodeId) → Io.equals id id ≡ true
unfolding Io.equals
equals_refl (Io.NodeId.numeric ns i) = rw (int_eq_refl ns, int_eq_refl i) refl
equals_refl (Io.NodeId.string ns s) = rw (int_eq_refl ns, text_eq_refl s) refl

pub index_of-Entry :
    (id : Io.NodeId) (i : ℕ) (m : List (Io.NodeId × ℕ))
    → Entry id i m
    → Io.equals id id ≡ true
    → ((k : Io.NodeId) (j : ℕ) → Entry k j m → Io.equals k id ≡ true → j ≡ i)
    → index_of id m ≡ some i
unfolding index_of
index_of-Entry id i [] e r u = elim e [ ]
index_of-Entry id i ((k, j) ∷ m) e r u = elim (Bool-cases (Io.equals k id)) [
  | inl h ↦ rw (h, index_of) (ap some (u k j (inl (refl, refl)) h))
  | inr h ↦
      rw (h, index_of)
        (elim e [
          | inl p ↦ let q = p.0 in cc
          | inr f ↦ index_of-Entry id i m f r (λ k j g. u k j (inr g))
        ])
]

-- Equal node ids stand at one position.
abbrev pub Distinct : List (Io.NodeId × ℕ) → Type 0
Distinct ws =
    (k id : Io.NodeId) (i j : ℕ) → Entry k j ws → Entry id i ws → Io.equals k id ≡ true → j ≡ i

-- The map has the entries that were put into it.
abbrev pub SameEntries : List (Io.NodeId × ℕ) → List (Io.NodeId × ℕ) → Type 0
SameEntries ws m =
    (id : Io.NodeId) (i : ℕ) → (Entry id i ws → Entry id i m) × (Entry id i m → Entry id i ws)

pub index_of-SameEntries :
    (ws m : List (Io.NodeId × ℕ)) (id : Io.NodeId) (i : ℕ)
    → Distinct ws
    → SameEntries ws m
    → Entry id i ws
    → index_of id m ≡ some i
index_of-SameEntries ws m id i d s e =
    index_of-Entry id i m ((s id i).0 e) (equals_refl id) (λ k j f. d k id i j ((s k j).1 f) e)

unfoldable pub shift : List (Io.NodeId × ℕ) → List (Io.NodeId × ℕ)
shift [] = []
shift ((id, i) ∷ ws) = (id, suc i) ∷ shift ws

pub targets-suc :
    (i : ℕ) (rs : List (Result (Option Io.NodeId))) → targets (suc i) rs ≡ shift (targets i rs)
unfolding shift
targets-suc i [] = refl
targets-suc i (ok (some id) ∷ rs) = ap (λ ws. (id, suc i) ∷ ws) (targets-suc (suc i) rs)
targets-suc i (ok none ∷ rs) = targets-suc (suc i) rs
targets-suc i (throws e ∷ rs) = targets-suc (suc i) rs
targets-suc i (undefined ∷ rs) = targets-suc (suc i) rs
