-- ===== src/Subscription/Handles.antt =====
-- src/binaryServer/HaSubscription.cpp, the map monitoredItems: a `std::map` from client handles, its
-- entries in the order of the handles.
pub mod Order
use opc_ua_server.Prelude.{ℕ, Bool, Option, none, some, List, [], ◌∷◌, if◌then◌else◌, ltb, ◌==◌}

module _ {ℓ} {V : Type ℓ} where
  -- `map[k] = v`
  unfoldable pub insert : ℕ → V → List (ℕ × V) → List (ℕ × V)
  insert k v [] = (k, v) ∷ []
  insert k v ((j, w) ∷ m) =
      let rest = insert k v m in
      if ltb k j then (k, v) ∷ (j, w) ∷ m else if k == j then (k, v) ∷ m else (j, w) ∷ rest

  unfoldable pub lookup : ℕ → List (ℕ × V) → Option V
  lookup k [] = none
  lookup k ((j, w) ∷ m) = if k == j then some w else lookup k m

  unfoldable pub erase : ℕ → List (ℕ × V) → List (ℕ × V)
  erase k [] = []
  erase k ((j, w) ∷ m) = let rest = erase k m in if k == j then m else (j, w) ∷ rest

  unfoldable pub erase_all : List ℕ → List (ℕ × V) → List (ℕ × V)
  unfolding erase
  erase_all [] m = m
  erase_all (k ∷ ks) m = erase_all ks (erase k m)
