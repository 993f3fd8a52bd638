-- ===== src/EventTypes/Walk.antt =====
-- EventTypeRegistry::getEventFieldNodeId after registrations of types and fields.
use opc_ua_server.Prelude.{
  ℕ, zero, suc, ◌<◌, ◌≤◌, ◌+◌, ◌≡◌, ◌≢◌, refl, sym, Bool, true, false, Bool-cases, Option-cases,
  inl, inr, Option, none, some, List, [], ◌∷◌, Text, text_eq, text_eq_refl, length, arith, ◌∙◌, ap,
}
use mathlib.Core.Path.{subst}
use opc_ua_server.Ua.Sdk.{UaNodeId}
use opc_ua_server.EventTypes.{
  Registry, find, assign, replace, get_key, field_of, register_event_type, register_event_field,
  walk, get_event_field_node_id,
}

module _ (same : UaNodeId → UaNodeId → Bool) where
  -- No entry has the type `k` as its super type.
  abbrev pub IsLeaf : UaNodeId → List (UaNodeId × UaNodeId) → Type 0
  IsLeaf k [] = Unit {0}
  IsLeaf k ((j, s) ∷ m) = (same s k ≡ false) × IsLeaf k m

  -- Each type was registered, the last one first, when no type had it as a super type, itself
  -- included.
  abbrev pub Grown : List (UaNodeId × UaNodeId) → Type 0
  Grown [] = Unit {0}
  Grown ((k, s) ∷ m) = (same s k ≡ false) × IsLeaf k m × Grown m

  find-IsLeaf :
      (k t s : UaNodeId) (m : List (UaNodeId × UaNodeId))
      → IsLeaf k m
      → find same t m ≡ some s
      → same s k ≡ false
  unfolding find
  find-IsLeaf k t s [] l h = cc
  find-IsLeaf k t s ((j, u) ∷ m) (a, l) h = elim (Bool-cases (same t j)) [
    | inl e ↦ let found = rw e at h in cc
    | inr e ↦ find-IsLeaf k t s m l (rw e at h)
  ]

  -- An entry that the walk cannot reach does not change it.
  walk-cons :
      (field : UaNodeId → Option UaNodeId) (k s : UaNodeId) (m : List (UaNodeId × UaNodeId)) (n : ℕ)
      (t : UaNodeId)
      → IsLeaf k m
      → same t k ≡ false
      → walk same field ((k, s) ∷ m) n t ≡ walk same field m n t
  unfolding walk find
  walk-cons field k s m zero t l h = refl
  walk-cons field k s m (suc n) t l h = elim (Option-cases (field t)) [
    | inr (f, e) ↦ rw (e, walk) refl
    | inl e ↦ elim (Option-cases (find same t m)) [
      | inl a ↦ rw (e, walk, h, a) refl
      | inr (u, a) ↦ rw (e, walk, h, a) (walk-cons field k s m n u l (find-IsLeaf k t u m l a))
    ]
  ]

  -- One step: to the super type, or to the field.
  walk_up :
      (field : UaNodeId → Option UaNodeId) (k s : UaNodeId) (m : List (UaNodeId × UaNodeId)) (n : ℕ)
      → same k k ≡ true
      → field k ≡ none
      → walk same field ((k, s) ∷ m) (suc n) k ≡ walk same field ((k, s) ∷ m) n s
  unfolding walk find
  walk_up field k s m n h e = rw (e, walk, h) refl

  walk_found :
      (field : UaNodeId → Option UaNodeId) (m : List (UaNodeId × UaNodeId)) (n : ℕ) (t f : UaNodeId)
      → field t ≡ some f
      → walk same field m (suc n) t ≡ some (some f)
  unfolding walk
  walk_found field m n t f e = rw (e, walk) refl

  walk_ends :
      (field : UaNodeId → Option UaNodeId) (m : List (UaNodeId × UaNodeId)) (n : ℕ) (t : UaNodeId)
      → Grown m
      → length m < n
      → walk same field m n t ≢ none
  unfolding walk find
  walk_ends field m zero t g l = λ h. omega arith
  walk_ends field [] (suc n) t g l = elim (Option-cases (field t)) [
    | inr (f, e) ↦ rw (e, walk) (λ h. cc)
    | inl e ↦ rw (e, walk) (λ h. cc)
  ]
  walk_ends field ((k, s) ∷ m) (suc n) t (a, leaf, g) l = elim (Bool-cases (same t k)) [
    | inr e ↦
        rw (walk-cons field k s m (suc n) t leaf e) (walk_ends field m (suc n) t g (omega arith))
    | inl e ↦ elim (Option-cases (field t)) [
      | inr (f, b) ↦ rw (b, walk) (λ h. cc)
      | inl b ↦
          rw (b, walk, e, walk-cons field k s m n s leaf a) (walk_ends field m n s g (omega arith))
    ]
  ]

find-replace {ℓ κ} :
    {K : Type ℓ} {V : Type κ} (same : K → K → Bool) (k : K) (v w : V) (m : List (K × V))
    → find same k m ≡ some w
    → find same k (replace same k v m) ≡ some v
unfolding find replace
find-replace same k v w [] h = cc
find-replace same k v w ((j, u) ∷ m) h = elim (Bool-cases (same k j)) [
  | inl e ↦ rw (e, find, e) refl
  | inr e ↦ rw (e, find, e) (find-replace same k v w m (rw e at h))
]

pub assign-absent {ℓ κ} :
    {K : Type ℓ} {V : Type κ} (same : K → K → Bool) (k : K) (v : V) (m : List (K × V))
    → find same k m ≡ none
    → assign same k v m ≡ (k, v) ∷ m
unfolding assign
assign-absent same k v m h = rw (h, assign) refl

assign-present {ℓ κ} :
    {K : Type ℓ} {V : Type κ} (same : K → K → Bool) (k : K) (v w : V) (m : List (K × V))
    → find same k m ≡ some w
    → assign same k v m ≡ replace same k v m
unfolding assign
assign-present same k v w m h = rw (h, assign) refl

pub find-assign {ℓ κ} :
    {K : Type ℓ} {V : Type κ} (same : K → K → Bool) (k : K) (v : V) (m : List (K × V))
    → same k k ≡ true
    → find same k (assign same k v m) ≡ some v
unfolding find
find-assign same k v m h = elim (Option-cases (find same k m)) [
  | inl e ↦ rw (assign-absent same k v m e, find, h) refl
  | inr (w, e) ↦ rw (assign-present same k v w m e) (find-replace same k v w m e)
]

find-replace_ne {ℓ κ} :
    {K : Type ℓ} {V : Type κ} (same : K → K → Bool) (n k : K) (v : V) (m : List (K × V))
    → ((j : K) → same k j ≡ true → same n j ≡ same n k)
    → same n k ≡ false
    → find same n (replace same k v m) ≡ find same n m
unfolding find replace
find-replace_ne same n k v [] t h = refl
find-replace_ne same n k v ((j, u) ∷ m) t h = elim (Bool-cases (same k j)) [
  | inl e ↦ let f = t j e ∙ h in rw (e, find, f) refl
  | inr e ↦ elim (Bool-cases (same n j)) [
    | inl f ↦ rw (e, find, f) refl
    | inr f ↦ rw (e, find, f) (find-replace_ne same n k v m t h)
  ]
]

-- An assignment to another key changes nothing.
pub find-assign_ne {ℓ κ} :
    {K : Type ℓ} {V : Type κ} (same : K → K → Bool) (n k : K) (v : V) (m : List (K × V))
    → ((j : K) → same k j ≡ true → same n j ≡ same n k)
    → same n k ≡ false
    → find same n (assign same k v m) ≡ find same n m
unfolding find
find-assign_ne same n k v m t h = elim (Option-cases (find same k m)) [
  | inl e ↦ rw (assign-absent same k v m e, find, h) refl
  | inr (w, e) ↦ rw (assign-present same k v w m e) (find-replace_ne same n k v m t h)
]

-- The registry's life: types and fields are registered, the last one first.
pub data Step : Type 0 where
  -- super type, new type
  event_type : UaNodeId → UaNodeId → Step
  -- event type, field, index
  event_field : UaNodeId → UaNodeId → ℕ → Step

module _ (same : UaNodeId → UaNodeId → Bool) (to_xml_string : UaNodeId → Text) where
  unfoldable pub apply : List Step → Registry
  unfolding register_event_type register_event_field
  apply [] = record { event_types = []; event_fields = [] }
  apply (event_type s t ∷ cs) = register_event_type same s t (apply cs)
  apply (event_field t f i ∷ cs) = register_event_field to_xml_string t f i (apply cs)

  -- Each new type is neither registered before nor a super type, its own included.
  abbrev pub Orderly : List Step → Type 0
  Orderly [] = Unit {0}
  Orderly (event_type s t ∷ cs) =
      (find same t (apply cs).event_types ≡ none)
      × (same s t ≡ false)
      × IsLeaf same t (apply cs).event_types
      × Orderly cs
  Orderly (event_field t f i ∷ cs) = Orderly cs

  apply-Grown : (cs : List Step) → Orderly cs → Grown same (apply cs).event_types
  unfolding apply assign
  apply-Grown [] h = tt
  apply-Grown (event_type s t ∷ cs) (a, b, c, h) =
      subst (λ m. Grown same m) (sym (assign-absent same t s (apply cs).event_types a))
        (b, c, apply-Grown cs h)
  apply-Grown (event_field t f i ∷ cs) h = apply-Grown cs h

  length-apply : (cs : List Step) → Orderly cs → length (apply cs).event_types ≤ length cs
  unfolding apply assign
  length-apply [] h = omega arith
  length-apply (event_type s t ∷ cs) (a, b, c, h) =
      let l = length-apply cs h in
      subst (λ m. length m ≤ suc (length cs))
        (sym (assign-absent same t s (apply cs).event_types a)) (omega arith)
  length-apply (event_field t f i ∷ cs) h = let l = length-apply cs h in omega arith

  -- After any registrations of fields, and of types that were neither registered before nor a super
  -- type, their own included, the search for a field ends for every type and index, within one step
  -- more than there were registrations.
  pub get_event_field_node_id_ends :
      (cs : List Step) (t : UaNodeId) (i : ℕ)
      → Orderly cs
      → get_event_field_node_id to_xml_string same (length cs + 1) t i (apply cs) ≢ none
  unfolding get_event_field_node_id
  get_event_field_node_id_ends cs t i h =
      walk_ends same (field_of to_xml_string (apply cs) i) (apply cs).event_types (length cs + 1) t
        (apply-Grown cs h) (let l = length-apply cs h in omega arith)

  -- For a type that was neither registered before nor a super type, its own included, and that has no
  -- field of that index itself, the search finds what it finds for the super type, one step later.
  pub get_event_field_node_id-inherits :
      (r : Registry) (s t : UaNodeId) (i n : ℕ)
      → same t t ≡ true
      → same s t ≡ false
      → find same t r.event_types ≡ none
      → IsLeaf same t r.event_types
      → field_of to_xml_string r i t ≡ none
      → get_event_field_node_id to_xml_string same (suc n) t i (register_event_type same s t r)
        ≡ get_event_field_node_id to_xml_string same n s i r
  unfolding get_event_field_node_id register_event_type
  get_event_field_node_id-inherits r s t i n h k a l e =
      ap (λ m. walk same (field_of to_xml_string r i) m (suc n) t)
        (assign-absent same t s r.event_types a)
      ∙ (walk_up same (field_of to_xml_string r i) t s r.event_types n h e
          ∙ walk-cons same (field_of to_xml_string r i) t s r.event_types n s l k)

  -- A registered field is found for its type and index in the first step, whatever else is registered.
  pub get_event_field_node_id-register_event_field :
      (r : Registry) (t f : UaNodeId) (i n : ℕ)
      → get_event_field_node_id to_xml_string same
          (suc n)
          t
          i
          (register_event_field to_xml_string t f i r)
        ≡ some (some f)
  unfolding get_event_field_node_id register_event_field field_of
  get_event_field_node_id-register_event_field r t f i n =
      walk_found same (field_of to_xml_string (register_event_field to_xml_string t f i r) i)
        r.event_types n t f
        (find-assign text_eq (get_key to_xml_string t i) f r.event_fields
          (text_eq_refl (get_key to_xml_string t i)))
