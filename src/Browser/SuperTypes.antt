-- ===== src/Browser/SuperTypes.antt =====
-- src/sasModelProvider/base/NodeBrowser.cpp, getSuperTypes.
use opc_ua_server.Prelude.{
  ℕ, zero, suc, ◌+◌, ◌<◌, true, false, none, some, List, [], ◌∷◌, ◌++◌, ◌≡◌, ◌≢◌, ◌⊎◌, refl, sym,
  ap, inl, inr, Bool-cases, Option-cases, arith, ◌==◌, ◌∙◌,
}
use opc_ua_server.Prelude.Result.{Result, ok, throws, undefined, fmap, too_deep}
use opc_ua_server.Ua.Sdk.{UaNodeId, ua_namespace}
use opc_ua_server.Browser.{HaNodeManager, UaNode, get_node, last, climb, get_super_types}

-- The node of a type outside of the namespace 0 is of higher rank than that of its super type.
abbrev pub IsRanked : HaNodeManager → (UaNodeId → ℕ) → Type 0
IsRanked h rank =
    (i s : UaNodeId) (t u : UaNode) (ids : List UaNodeId)
    → get_node h i ≡ some t
    → (ua_namespace t.node_id == 0) ≡ false
    → t.super_types ≡ some ids
    → last ids ≡ some s
    → get_node h s ≡ some u
    → rank u.node_id < rank t.node_id

-- The search goes no further from the type: its node is not known, it is one of the namespace 0, or it
-- has no super type.
abbrev pub IsEnd : HaNodeManager → UaNodeId → Type 0
IsEnd h s =
    (get_node h s ≡ none)
    ⊎ ((t : UaNode) × (get_node h s ≡ some t)
        × (((ua_namespace t.node_id == 0) ≡ true) ⊎ (t.super_types ≡ some [])))

last-some : (y : UaNodeId) (ids : List UaNodeId) → last (y ∷ ids) ≢ none
unfolding last
last-some y [] = λ e. cc
last-some y (z ∷ ids) = last-some z ids

last-none : (ids : List UaNodeId) → last ids ≡ none → ids ≡ []
unfolding last
last-none [] e = refl
last-none (x ∷ []) e = absurd (cc)
last-none (x ∷ y ∷ ids) e = absurd (last-some y ids e)

last-append :
    (x s : UaNodeId) (ids rest : List UaNodeId)
    → last ids ≡ some s
    → last (x ∷ (ids ++ rest)) ≡ last (s ∷ rest)
unfolding last
last-append x s [] rest e = absurd (cc)
last-append x s (y ∷ []) rest e = let k : y ≡ s = cc in ap (λ z. last (z ∷ rest)) k
last-append x s (y ∷ z ∷ ids) rest e = last-append y s (z ∷ ids) rest e

-- The end of a list that is empty.
last_alone : (s b : UaNodeId) (ts : List UaNodeId) → [] ≡ ts → last (s ∷ ts) ≡ some b → s ≡ b
unfolding last
last_alone s b [] e l = cc
last_alone s b (t ∷ ts) e l = absurd (cc)

fmap_ok :
    (f : List UaNodeId → List UaNodeId) (r : Result (List UaNodeId)) (ts : List UaNodeId)
    → fmap f r ≡ ok ts
    → (xs : List UaNodeId) × (r ≡ ok xs) × (f xs ≡ ts)
fmap_ok f (ok x) ts e = (x, refl, cc)
fmap_ok f (throws w) ts e = absurd (cc)
fmap_ok f undefined ts e = absurd (cc)

fmap_deep :
    (ids : List UaNodeId) (r : Result (List UaNodeId))
    → r ≢ throws too_deep
    → fmap (λ ts. ids ++ ts) r ≢ throws too_deep
fmap_deep ids (ok x) n = λ e. cc
fmap_deep ids (throws w) n = λ e. n (let k : w ≡ too_deep = cc in ap throws k)
fmap_deep ids undefined n = λ e. cc

module _ (h : HaNodeManager) where
  climb_ends :
      (rank : UaNodeId → ℕ) (n : ℕ) (i : UaNodeId) (t : UaNode)
      → IsRanked h rank
      → get_node h i ≡ some t
      → rank t.node_id < n
      → climb h (suc n) (some t) ≢ throws too_deep
  unfolding climb
  climb_ends rank zero i t k e l = absurd (omega arith)
  climb_ends rank (suc n) i t k e l = elim (Bool-cases (ua_namespace t.node_id == 0)) [
    | inl a ↦ rw (climb, a) (λ e. cc)
    | inr a ↦ elim (Option-cases t.super_types) [
      | inl b ↦ rw (climb, a, b) (λ e. cc)
      | inr (ids, b) ↦ elim (Option-cases (last ids)) [
        | inl c ↦ rw (climb, a, b, c) (λ e. cc)
        | inr (s, c) ↦ elim (Option-cases (get_node h s)) [
          | inl d ↦ rw (climb, a, b, c, d) (λ e. cc)
          | inr (u, d) ↦
              rw (climb, a, b, c, d)
                (fmap_deep ids (climb h (suc n) (some u))
                  (climb_ends rank n s u k d (let q = k i s t u ids e a b c d in omega arith)))
        ]
      ]
    ]
  ]

  -- Where each super type has a lower rank than the type, as where no type is its own super type, the
  -- search for the super types of a known type ends within two steps more than the type's rank.
  pub get_super_types_ends :
      (rank : UaNodeId → ℕ) (id : UaNodeId) (t : UaNode)
      → IsRanked h rank
      → get_node h id ≡ some t
      → get_super_types h (rank t.node_id + 2) id ≢ throws too_deep
  unfolding get_super_types
  get_super_types_ends rank id t k e =
      let f : rank t.node_id + 2 ≡ suc (rank t.node_id + 1) = omega arith in
      rw (e, f) (climb_ends rank (rank t.node_id + 1) id t k e (omega arith))

  climb_base :
      (n : ℕ) (s : UaNodeId) (ts : List UaNodeId) (b : UaNodeId)
      → climb h n (get_node h s) ≡ ok ts
      → last (s ∷ ts) ≡ some b
      → IsEnd h b
  unfolding climb
  climb_base zero s ts b e l = absurd (cc)
  climb_base (suc n) s ts b e l = elim (Option-cases (get_node h s)) [
    | inl d ↦
        let f = rw (d, climb) at e in let q : [] ≡ ts = cc in rw (← last_alone s b ts q l) (inl d)
    | inr (t, d) ↦ elim (Bool-cases (ua_namespace t.node_id == 0)) [
      | inl a ↦
          let f = rw (d, climb, a) at e in
          let q : [] ≡ ts = cc in rw (← last_alone s b ts q l) (inr (t, d, inl a))
      | inr a ↦ elim (Option-cases t.super_types) [
        | inl c ↦ absurd (let f = rw (d, climb, a, c) at e in cc)
        | inr (ids, c) ↦ elim (Option-cases (last ids)) [
          | inl g ↦
              let f = rw (d, climb, a, c, g) at e in
              let k = last-none ids g in
              let q : [] ≡ ts = cc in rw (← last_alone s b ts q l) (inr (t, d, inr (c ∙ ap some k)))
          | inr (u, g) ↦
              let (xs, r, m) =
                fmap_ok (λ zs. ids ++ zs) (climb h n (get_node h u)) ts
                  (rw (d, climb, a, c, g) at e) in
              climb_base n u xs b r
                (sym (last-append s u ids xs g) ∙ ap (λ zs. last (s ∷ zs)) m ∙ l)
        ]
      ]
    ]
  ]

  -- When the search for the super types of a type returns, the last of them, or the type itself if there
  -- are none, has no known node, is of the namespace 0 or has no super type: it is the base type.
  pub get_super_types_base :
      (fuel : ℕ) (id : UaNodeId) (ts : List UaNodeId) (b : UaNodeId)
      → get_super_types h fuel id ≡ ok ts
      → last (id ∷ ts) ≡ some b
      → IsEnd h b
  unfolding get_super_types
  get_super_types_base fuel id ts b e l = climb_base fuel id ts b e l
