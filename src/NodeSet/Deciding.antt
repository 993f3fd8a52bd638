-- ===== src/NodeSet/Deciding.antt =====
-- src/provider/uaNodeSetXml/sasModelProvider/HaNodeManagerNodeSetXml.cpp, isEventType, with the event types
-- described by a relation.
use opc_ua_server.Prelude.{
  ℕ, suc, zero, ◌<◌, ◌≡◌, refl, ◌⊎◌, ◌↔◌, ◌≢◌, Bool-cases, inl, inr, Bool, true, false, some, List,
  [], ◌∷◌, All, arith,
}
use opc_ua_server.Prelude.Result.{Result, ok}
use mathlib.Core.Path.{subst}
use mathlib.Core.List.{Memᴰ}
use mathlib.Core.List.Memᴰ.{not-nil}
use opc_ua_server.Browser.{UaNode, get_node}
use opc_ua_server.NodeSet.{
  Environment, Reference, Direction, Meaning, meaning, is_allowed, generates_event, has_subtype,
  direction_of, search_types, is_event_type,
}

-- A type is the target of a reference GeneratesEvent; or a reference HasSubtype down, if the direction allows
-- it, leads to a type from which the way goes on down; or one up, to a type from which it goes on up.
pub data Generates (env : Environment) : Direction → UaNode → Type 0 where
  here :
      {d : Direction} {n : UaNode} (rs : List Reference) (r : Reference)
      → env.browse_types n ≡ some rs
      → Memᴰ r rs
      → r.reference_type ≡ generates_event
      → r.is_forward ≡ false
      → Generates env d n
  down :
      {d : Direction} {n : UaNode} (rs : List Reference) (r : Reference) (m : UaNode)
      → env.browse_types n ≡ some rs
      → Memᴰ r rs
      → r.reference_type ≡ has_subtype
      → r.is_forward ≡ true
      → d ≢ Direction.inverse
      → get_node env.manager r.node_id ≡ some m
      → Generates env Direction.forward m
      → Generates env d n
  up :
      {d : Direction} {n : UaNode} (rs : List Reference) (r : Reference) (m : UaNode)
      → env.browse_types n ≡ some rs
      → Memᴰ r rs
      → r.reference_type ≡ has_subtype
      → r.is_forward ≡ false
      → d ≢ Direction.forward
      → get_node env.manager r.node_id ≡ some m
      → Generates env Direction.inverse m
      → Generates env d n

meaning-generates :
    (d : Direction) (r : Reference)
    → (meaning d r ≡ Meaning.generates)
      ↔ ((r.reference_type ≡ generates_event) × (r.is_forward ≡ false))
unfolding meaning
meaning-generates d r = ground arith

meaning-subtype :
    (d : Direction) (r : Reference)
    → (meaning d r ≡ Meaning.subtype)
      ↔ ((r.reference_type ≡ has_subtype) × (is_allowed d r.is_forward ≡ true))
unfolding meaning
meaning-subtype d r = ground arith

is_allowed-down : (d : Direction) → (is_allowed d true ≡ true) ↔ (d ≢ Direction.inverse)
unfolding is_allowed
is_allowed-down Direction.forward = (λ e f. cc, λ f. refl)
is_allowed-down Direction.inverse = (λ e f. cc, λ f. absurd (f refl))
is_allowed-down Direction.both = (λ e f. cc, λ f. refl)

is_allowed-up : (d : Direction) → (is_allowed d false ≡ true) ↔ (d ≢ Direction.forward)
unfolding is_allowed
is_allowed-up Direction.forward = (λ e f. cc, λ f. absurd (f refl))
is_allowed-up Direction.inverse = (λ e f. cc, λ f. refl)
is_allowed-up Direction.both = (λ e f. cc, λ f. refl)

Meaning-cases :
    (x : Meaning) → (x ≡ Meaning.generates) ⊎ ((x ≡ Meaning.subtype) ⊎ (x ≡ Meaning.other))
Meaning-cases Meaning.generates = inl refl
Meaning-cases Meaning.subtype = inr (inl refl)
Meaning-cases Meaning.other = inr (inr refl)

-- A Boolean result decides a type.
abbrev pub Decides {ℓ} : Result Bool → Type ℓ → Type ℓ
Decides r P = ((r ≡ ok true) × P) ⊎ ((r ≡ ok false) × (P → ⊥))

module _ (env : Environment) where
  abbrev Leads : Direction → Reference → Type 0
  Leads d r =
      (meaning d r ≡ Meaning.generates)
      ⊎ ((m : UaNode) × (meaning d r ≡ Meaning.subtype)
          × (get_node env.manager r.node_id ≡ some m)
          × Generates env (direction_of r.is_forward) m)

  abbrev Found : Direction → List Reference → Type 0
  Found d rs = (r : Reference) × Memᴰ r rs × Leads d r

  -- A reference to a subtype leads to a known node, for which the call decides.
  abbrev IsDecided : (UaNode → Direction → Result Bool) → Direction → Reference → Type 0
  IsDecided search d r =
      meaning d r ≡ Meaning.subtype
      → (m : UaNode) × (get_node env.manager r.node_id ≡ some m)
        × Decides (search m (direction_of r.is_forward))
            (Generates env (direction_of r.is_forward) m)

  not-Found :
      (d : Direction) (r : Reference) (rs : List Reference)
      → (Leads d r → ⊥)
      → (Found d rs → ⊥)
      → Found d (r ∷ rs)
      → ⊥
  not-Found d r rs a b (x, Memᴰ.head e, l) = a (subst (Leads d) e l)
  not-Found d r rs a b (x, Memᴰ.tail m, l) = b (x, m, l)

  -- The rest of the list decides if the first reference leads nowhere.
  later :
      (d : Direction) (r : Reference) (rs : List Reference) (result : Result Bool)
      → (Leads d r → ⊥)
      → Decides result (Found d rs)
      → Decides result (Found d (r ∷ rs))
  later d r rs result a (inl (e, (x, m, l))) = inl (e, (x, Memᴰ.tail m, l))
  later d r rs result a (inr (e, b)) = inr (e, not-Found d r rs a b)

  other-Leads : (d : Direction) (r : Reference) → meaning d r ≡ Meaning.other → Leads d r → ⊥
  other-Leads d r e (inl g) = cc
  other-Leads d r e (inr (m, s, g, p)) = cc

  subtype-Leads :
      (d : Direction) (r : Reference) (m : UaNode)
      → meaning d r ≡ Meaning.subtype
      → get_node env.manager r.node_id ≡ some m
      → (Generates env (direction_of r.is_forward) m → ⊥)
      → Leads d r
      → ⊥
  subtype-Leads d r m e g f (inl s) = cc
  subtype-Leads d r m e g f (inr (k, s, h, p)) =
      let q : k ≡ m = cc in f (subst (Generates env (direction_of r.is_forward)) q p)

  search_types-decides :
      (go : UaNode → Direction → Result Bool) (d : Direction) (rs : List Reference)
      → All (IsDecided go d) rs
      → Decides (search_types env go d rs) (Found d rs)
  unfolding search_types
  search_types-decides go d [] h = inr (refl, λ (r, m, l). not-nil m)
  search_types-decides go d (r ∷ rs) (a, h) = elim (Meaning-cases (meaning d r)) [
    | inl e ↦ inl (rw (search_types, e) refl, (r, Memᴰ.head refl, inl e))
    | inr (inr e) ↦
        rw (search_types, e)
          (later d r rs (search_types env go d rs) (other-Leads d r e)
            (search_types-decides go d rs h))
    | inr (inl e) ↦
        let (m, g, c) = a e in
        elim c [
          | inl (t, p) ↦
              inl (rw (search_types, e, g, t) refl, (r, Memᴰ.head refl, inr (m, e, g, p)))
          | inr (f, p) ↦
              rw (search_types, e, g, f)
                (later d r rs (search_types env go d rs) (subtype-Leads d r m e g p)
                  (search_types-decides go d rs h))
        ]
  ]

  -- What is found in the references of a node is what it generates.
  Found-Generates :
      (d : Direction) (n : UaNode) (rs : List Reference)
      → env.browse_types n ≡ some rs
      → Found d rs
      → Generates env d n
  unfolding direction_of
  Found-Generates d n rs e (r, m, inl g) =
      let (t, f) = (meaning-generates d r).0 g in Generates.here rs r e m t f
  Found-Generates d n rs e (r, m, inr (k, s, g, p)) =
      let (t, a) = (meaning-subtype d r).0 s in
      elim (Bool-cases r.is_forward) [
        | inl f ↦ Generates.down rs r k e m t f ((is_allowed-down d).0 (rw f at a)) g (rw f at p)
        | inr f ↦ Generates.up rs r k e m t f ((is_allowed-up d).0 (rw f at a)) g (rw f at p)
      ]

  Generates-Found :
      (d : Direction) (n : UaNode) (rs : List Reference)
      → env.browse_types n ≡ some rs
      → Generates env d n
      → Found d rs
  unfolding direction_of
  Generates-Found d n rs e (Generates.here ss r h m t f) =
      let q : ss ≡ rs = cc in (r, subst (Memᴰ r) q m, inl ((meaning-generates d r).1 (t, f)))
  Generates-Found d n rs e (Generates.down ss r k h m t f a g p) =
      let q : ss ≡ rs = cc in
      let s = (meaning-subtype d r).1 (t, rw f ((is_allowed-down d).1 a)) in
      (r, subst (Memᴰ r) q m, inr (k, s, g, rw f p))
  Generates-Found d n rs e (Generates.up ss r k h m t f a g p) =
      let q : ss ≡ rs = cc in
      let s = (meaning-subtype d r).1 (t, rw f ((is_allowed-up d).1 a)) in
      (r, subst (Memᴰ r) q m, inr (k, s, g, rw f p))

  -- A reference to a subtype leads to a known node of lower rank.
  abbrev pub Lowers : (Direction → UaNode → ℕ) → Direction → UaNode → Reference → Type 0
  Lowers rank d n r =
      meaning d r ≡ Meaning.subtype
      → (m : UaNode) × (get_node env.manager r.node_id ≡ some m)
        × (rank (direction_of r.is_forward) m < rank d n)

  -- Every node can be browsed, and its subtypes and super types have lower ranks.
  abbrev pub IsRanked : (Direction → UaNode → ℕ) → Type 0
  IsRanked rank =
      (d : Direction) (n : UaNode)
      → (rs : List Reference) × (env.browse_types n ≡ some rs) × All (Lowers rank d n) rs

  All-IsDecided :
      (rank : Direction → UaNode → ℕ) (depth : ℕ) (d : Direction) (n : UaNode) (rs : List Reference)
      → ((e : Direction) (m : UaNode)
          → rank e m < depth
          → Decides (is_event_type env depth m e) (Generates env e m))
      → rank d n < suc depth
      → All (Lowers rank d n) rs
      → All (IsDecided (is_event_type env depth) d) rs
  All-IsDecided rank depth d n [] h l a = tt
  All-IsDecided rank depth d n (r ∷ rs) h l (a, b) = (
    λ e. let (m, g, c) = a e in (m, g, h (direction_of r.is_forward) m (omega (arith, c, l))),
    All-IsDecided rank depth d n rs h l b,
  )

  decided_node :
      (d : Direction) (n : UaNode) (rs : List Reference) (result : Result Bool)
      → env.browse_types n ≡ some rs
      → Decides result (Found d rs)
      → Decides result (Generates env d n)
  decided_node d n rs result e (inl (t, f)) = inl (t, Found-Generates d n rs e f)
  decided_node d n rs result e (inr (t, f)) = inr (t, λ g. f (Generates-Found d n rs e g))

  -- The search for event types from a node returns, if every node can be browsed, the targets of the allowed
  -- references HasSubtype are known, these have a lower rank, and the stack is deeper than the rank of the node. It
  -- gives true exactly if the node is the target of a reference GeneratesEvent or is related to such a node
  -- by references HasSubtype, of which all go up or all go down.
  pub is_event_type-decides :
      (rank : Direction → UaNode → ℕ) (depth : ℕ) (d : Direction) (n : UaNode)
      → IsRanked rank
      → rank d n < depth
      → Decides (is_event_type env depth n d) (Generates env d n)
  unfolding is_event_type
  is_event_type-decides rank zero d n k l = absurd (omega (arith, l))
  is_event_type-decides rank (suc depth) d n k l =
      let (rs, e, a) = k d n in
      rw (is_event_type, e)
        (decided_node d n rs (search_types env (is_event_type env depth) d rs) e (
          search_types-decides (is_event_type env depth) d rs
            (All-IsDecided rank depth d n rs (λ c m. is_event_type-decides rank depth c m k) l a)))
