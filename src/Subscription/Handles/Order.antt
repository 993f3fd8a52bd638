-- ===== src/Subscription/Handles/Order.antt =====
-- The order of the entries of the map monitoredItems of src/binaryServer/HaSubscription.cpp.
use opc_ua_server.Prelude.{ℕ, List, [], ◌∷◌, ◌++◌, All, ==_iff, ◌<◌, ◌≡◌, refl, arith, some}
use opc_ua_server.Subscription.Handles.{insert, lookup, erase, erase_all}

module _ {ℓ} {V : Type ℓ} where
  abbrev pub Below : ℕ → List (ℕ × V) → Type 0
  Below n m = All (λ e. e.0 < n) m

  abbrev pub Ascending : List (ℕ × V) → Type 0
  Ascending [] = Unit {0}
  Ascending ((k, v) ∷ m) = All (λ e. k < e.0) m × Ascending m

  pub insert-All {κ} :
      (P : ℕ × V → Type κ) (k : ℕ) (v : V) (m : List (ℕ × V))
      → All P m
      → P (k, v)
      → All P (insert k v m)
  unfolding insert
  insert-All P k v [] h p = (p, tt)
  insert-All P k v ((j, w) ∷ m) h p = let rest = insert-All P k v m h.1 p in ground arith

  All-later : (k j : ℕ) (m : List (ℕ × V)) → k < j → All (λ e. j < e.0) m → All (λ e. k < e.0) m
  All-later k j [] l h = tt
  All-later k j (e ∷ m) l h = (omega (arith, h.0), All-later k j m l h.1)

  pub insert-Ascending : (k : ℕ) (v : V) (m : List (ℕ × V)) → Ascending m → Ascending (insert k v m)
  unfolding insert
  insert-Ascending k v [] h = (tt, tt)
  insert-Ascending k v ((j, w) ∷ m) h =
      let rest = insert-Ascending k v m h.1 in
      let later = All-later k j m in let all = insert-All (λ e. j < e.0) k v m h.0 in ground arith

  pub insert_last : (k : ℕ) (v : V) (m : List (ℕ × V)) → Below k m → insert k v m ≡ m ++ (k, v) ∷ []
  unfolding insert
  insert_last k v [] h = refl
  insert_last k v ((j, w) ∷ m) h = let rest = insert_last k v m h.1 in ground arith

  pub erase-All {κ} : (P : ℕ × V → Type κ) (k : ℕ) (m : List (ℕ × V)) → All P m → All P (erase k m)
  unfolding erase
  erase-All P k [] h = h
  erase-All P k ((j, w) ∷ m) h = let rest = erase-All P k m h.1 in ground arith

  pub erase-Ascending : (k : ℕ) (m : List (ℕ × V)) → Ascending m → Ascending (erase k m)
  unfolding erase
  erase-Ascending k [] h = tt
  erase-Ascending k ((j, w) ∷ m) h =
      let rest = erase-Ascending k m h.1 in
      let all = erase-All (λ e. j < e.0) k m h.0 in ground arith

  pub erase_all-All {κ} :
      (P : ℕ × V → Type κ) (ks : List ℕ) (m : List (ℕ × V)) → All P m → All P (erase_all ks m)
  unfolding erase_all
  erase_all-All P [] m h = h
  erase_all-All P (k ∷ ks) m h = erase_all-All P ks (erase k m) (erase-All P k m h)

  pub erase_all-Ascending :
      (ks : List ℕ) (m : List (ℕ × V)) → Ascending m → Ascending (erase_all ks m)
  unfolding erase_all
  erase_all-Ascending [] m h = h
  erase_all-Ascending (k ∷ ks) m h = erase_all-Ascending ks (erase k m) (erase-Ascending k m h)

  pub lookup-All {κ} :
      (P : ℕ × V → Type κ) (k : ℕ) (v : V) (m : List (ℕ × V))
      → All P m
      → lookup k m ≡ some v
      → P (k, v)
  unfolding lookup
  lookup-All P k v [] h e = absurd (cc)
  lookup-All P k v ((j, w) ∷ m) h e = let rest = lookup-All P k v m h.1 in ground arith

  -- The first entry.
  pub lookup_head : (k : ℕ) (v : V) (m : List (ℕ × V)) → lookup k ((k, v) ∷ m) ≡ some v
  unfolding lookup
  lookup_head k v m = rw ((==_iff k k).1 refl) refl

  pub erase_head : (k : ℕ) (v : V) (m : List (ℕ × V)) → erase k ((k, v) ∷ m) ≡ m
  unfolding erase
  erase_head k v m = rw ((==_iff k k).1 refl) refl
