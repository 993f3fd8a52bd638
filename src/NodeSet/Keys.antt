-- ===== src/NodeSet/Keys.antt =====
-- The maps of HaNodeManagerNodeSetXml.cpp by their keys.
use opc_ua_server.Prelude.{
  ℕ, suc, ◌<◌, ◌≤◌, ◌≡◌, refl, Bool, true, false, Bool-cases, inl, inr, ◌||◌, none, some, List, [],
  ◌∷◌, arith, Text, text_eq, text_eq_refl, text_eq_iff, if◌then◌else◌,
}
use opc_ua_server.EventTypes.{find}
use opc_ua_server.NodeSet.{put, text_less}

-- A key is in the map.
abbrev pub has {ℓ} : {A : Type ℓ} → List (Text × A) → Text → Bool
has [] j = false
has ((k, v) ∷ m) j = text_eq j k || has m j

-- The number of keys that are not in the map.
abbrev pub missing {ℓ} : {A : Type ℓ} → List (Text × A) → List Text → ℕ
missing m [] = 0
missing m (u ∷ us) = if has m u then missing m us else suc (missing m us)

abbrev pub listed : Text → List Text → Bool
listed k [] = false
listed k (u ∷ us) = text_eq u k || listed k us

-- No key is lost.
abbrev pub Grows {ℓ} : {A : Type ℓ} → List (Text × A) → List (Text × A) → Type 0
Grows m l = (j : Text) → has m j ≡ true → has l j ≡ true

or_left : (b c : Bool) → c ≡ true → (b || c) ≡ true
or_left true c h = refl
or_left false c h = h

or_same : (b c : Bool) → (b || c) ≡ (b || (b || c))
or_same true c = refl
or_same false c = refl

or_swap : (a b c : Bool) → (a || (b || c)) ≡ (b || (a || c))
or_swap true true c = refl
or_swap true false c = refl
or_swap false b c = refl

module _ {ℓ} {A : Type ℓ} where
  pub has-find : (k : Text) (m : List (Text × A)) → find text_eq k m ≡ none → has m k ≡ false
  unfolding find
  has-find k [] h = refl
  has-find k ((j, w) ∷ m) h = elim (Bool-cases (text_eq k j)) [
    | inl e ↦ absurd (let q = rw e at h in cc)
    | inr e ↦ rw e (has-find k m (rw e at h))
  ]

  pub has-find-some :
      (k : Text) (w : A) (m : List (Text × A)) → find text_eq k m ≡ some w → has m k ≡ true
  unfolding find
  has-find-some k w [] h = absurd (cc)
  has-find-some k w ((j, v) ∷ m) h = elim (Bool-cases (text_eq k j)) [
    | inl e ↦ rw e refl
    | inr e ↦ rw e (has-find-some k w m (rw e at h))
  ]

  pub has-put :
      (k : Text) (v : A) (m : List (Text × A)) (j : Text)
      → has (put k v m) j ≡ (text_eq j k || has m j)
  unfolding put
  has-put k v [] j = refl
  has-put k v ((i, w) ∷ m) j = elim (Bool-cases (text_eq k i)) [
    | inl e ↦ rw (e, (text_eq_iff k i).0 e) (or_same (text_eq j i) (has m j))
    | inr e ↦ elim (Bool-cases (text_less k i)) [
      | inl l ↦ rw (e, l) refl
      | inr l ↦ rw (e, l, has-put k v m j) (or_swap (text_eq j i) (text_eq j k) (has m j))
    ]
  ]

  pub Grows-put : (k : Text) (v : A) (m : List (Text × A)) → Grows m (put k v m)
  Grows-put k v m j h = rw (has-put k v m j) (or_left (text_eq j k) (has m j) h)

  pub Grows-missing :
      (m l : List (Text × A)) → Grows m l → (us : List Text) → missing l us ≤ missing m us
  Grows-missing m l g [] = omega arith
  Grows-missing m l g (u ∷ us) = elim (Bool-cases (has m u)) [
    | inl e ↦ rw (e, g u e) (Grows-missing m l g us)
    | inr e ↦ ground (arith, e, Grows-missing m l g us)
  ]

  pub missing-put :
      (k : Text) (v : A) (m : List (Text × A)) (us : List Text)
      → has m k ≡ false
      → listed k us ≡ true
      → missing (put k v m) us < missing m us
  missing-put k v m [] h l = absurd (cc)
  missing-put k v m (u ∷ us) h l = elim (Bool-cases (text_eq u k)) [
    | inl e ↦
        let q = (text_eq_iff u k).0 e in
        rw (q, has-put k v m k, text_eq_refl k, h)
          (omega (arith, Grows-missing m (put k v m) (Grows-put k v m) us))
    | inr e ↦
        let rest = missing-put k v m us h (rw e at l) in
        rw (has-put k v m u, e) (ground (arith, rest))
  ]
