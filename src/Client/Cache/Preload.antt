-- ===== src/Client/Cache/Preload.antt =====
-- src/binaryServer/CachedConverterCallback.cpp: the recursion of `preload` over the fields of structures.
use opc_ua_server.Prelude.{
  ℕ, zero, suc, Bool, true, Option, none, some, List, [], ◌∷◌, ◌≡◌, ◌≢◌, refl, sym, All, Bool-cases,
  inl, inr, ap, ◌∙◌, ◌<◌, ◌+◌, arith, ◌==◌,
}
use opc_ua_server.Prelude.Result.{
  Error, Result, ok, throws, undefined, ◌>>=◌, no_structure_definition, no_super_types, too_deep,
}
use opc_ua_server.Ua.Sdk.{UaNodeId, StructureDefinition, StructureField, ua_namespace}
use opc_ua_server.Ua.ToUa.{last_of}
use opc_ua_server.Client.Cache.{
  Cache, Source, found, and_then, base_type, is_structured, preload_fields, preload, load_fields,
  load_type, get_super_types, get_structure_definition,
}
use opc_ua_server.Client.Cache.Transparent.{
  IsTrue, look_up, look_up-IsTrue, super_types_of, structure_definition_of,
}

-- The model's own exception is none of the source's.
abbrev pub IsForeign : Source → Type 0
IsForeign src =
    ((t : UaNodeId) → src.get_super_types t ≢ throws too_deep)
    × ((t : UaNodeId) → src.get_structure_definition t ≢ throws too_deep)

-- The types of a structure's fields are of lower rank than the structure.
abbrev pub IsRanked : Source → (UaNodeId → ℕ) → Type 0
IsRanked src rank =
    (t : UaNodeId) (d : StructureDefinition)
    → src.get_structure_definition t ≡ ok (some d)
    → All (λ f. rank f.type_id < rank t) d.children

found_foreign :
    {A : Type 0} (r : Result (Option A)) (why : Error)
    → why ≢ too_deep
    → r ≢ throws too_deep
    → (r >>= found why) ≢ throws too_deep
unfolding found
found_foreign (ok none) why n m = λ q. let k : why ≡ too_deep = cc in n k
found_foreign (ok (some x)) why n m = λ q. cc
found_foreign (throws e) why n m = λ q. let k : e ≡ too_deep = cc in m (ap throws k)
found_foreign undefined why n m = λ q. cc

found-some :
    {A : Type 0} (r : Result (Option A)) (why : Error) (x : A)
    → (r >>= found why) ≡ ok x
    → r ≡ ok (some x)
unfolding found
found-some (ok none) why x e = absurd (cc)
found-some (ok (some y)) why x e = let k : y ≡ x = cc in ap (λ z. ok (some z)) k
found-some (throws w) why x e = absurd (cc)
found-some undefined why x e = absurd (cc)

module _ (same : UaNodeId → UaNodeId → Bool) (is_null : UaNodeId → Bool)
    (identifier_numeric : UaNodeId → ℕ) (src : Source) where
  abbrev Ends : {A : Type 0} → Cache × Result A → Type 0
  Ends out = IsTrue same src out.0 × (out.1 ≢ throws too_deep)

  and_then-Ends :
      {A B : Type 0} (out : Cache × Result A) (next : Cache → A → Cache × Result B)
      → Ends out
      → ((c : Cache) (x : A) → IsTrue same src c → out.1 ≡ ok x → Ends (next c x))
      → Ends (and_then out next)
  unfolding and_then
  and_then-Ends (c, ok x) next v h = h c x v.0 refl
  and_then-Ends (c, throws e) next v h = (v.0, λ q. let k : e ≡ too_deep = cc in v.1 (ap throws k))
  and_then-Ends (c, undefined) next v h = (v.0, λ q. cc)

  pub super_types_direct :
      (t : UaNodeId) (c : Cache)
      → ((a b : UaNodeId) → same a b ≡ true → a ≡ b)
      → IsTrue same src c
      → IsTrue same src (get_super_types same src t c).0
        × ((get_super_types same src t c).1 ≡ (src.get_super_types t >>= found no_super_types))
  unfolding look_up
  super_types_direct t c s v =
      let out = look_up-IsTrue same src (super_types_of t) c s v in let e = out.1 in (out.0, cc)

  pub definition_direct :
      (t : UaNodeId) (c : Cache)
      → ((a b : UaNodeId) → same a b ≡ true → a ≡ b)
      → IsTrue same src c
      → IsTrue same src (get_structure_definition same src t c).0
        × ((get_structure_definition same src t c).1
            ≡ (src.get_structure_definition t >>= found no_structure_definition))
  unfolding look_up
  definition_direct t c s v =
      let out = look_up-IsTrue same src (structure_definition_of t) c s v in
      let e = out.1 in (out.0, cc)

  base_type_ends :
      (ts : List UaNodeId) → base_type same is_null identifier_numeric src ts ≢ throws too_deep
  unfolding base_type last_of
  base_type_ends [] = λ q. cc
  base_type_ends (t ∷ []) = ground arith
  base_type_ends (t ∷ u ∷ ts) = base_type_ends (u ∷ ts)

  fields_end :
      (load : UaNodeId → Cache → Cache × Result (Unit {0})) (fs : List StructureField) (c : Cache)
      → All (λ f. (d : Cache) → IsTrue same src d → Ends (load f.type_id d)) fs
      → IsTrue same src c
      → Ends (preload_fields same is_null identifier_numeric src load fs c)
  unfolding preload_fields
  fields_end load [] c a v = (v, λ q. cc)
  fields_end load (f ∷ fs) c a v =
      and_then-Ends (load f.type_id c)
        (λ d u. preload_fields same is_null identifier_numeric src load fs d) (a.0 c v)
        (λ d u w e. fields_end load fs d a.1 w)

  -- A function for a type ends for the types of lower rank.
  abbrev EndsBelow : (UaNodeId → Cache → Cache × Result (Unit {0})) → (UaNodeId → ℕ) → ℕ → Type 0
  EndsBelow load rank n =
      (u : UaNodeId) (d : Cache) → rank u < n → IsTrue same src d → Ends (load u d)

  All-load :
      (load : UaNodeId → Cache → Cache × Result (Unit {0})) (n : ℕ) (rank : UaNodeId → ℕ)
      (t : UaNodeId) (fs : List StructureField)
      → All (λ f. rank f.type_id < rank t) fs
      → rank t < suc n
      → EndsBelow load rank n
      → All (λ f. (d : Cache) → IsTrue same src d → Ends (load f.type_id d)) fs
  All-load load n rank t [] a l h = tt
  All-load load n rank t (f ∷ fs) a l h =
      (λ d v. h f.type_id d (omega (arith, a.0, l)) v, All-load load n rank t fs a.1 l h)

  load_fields-Ends :
      (load : UaNodeId → Cache → Cache × Result (Unit {0})) (rank : UaNodeId → ℕ) (n : ℕ)
      (t : UaNodeId) (c : Cache) (b : UaNodeId)
      → ((a b : UaNodeId) → same a b ≡ true → a ≡ b)
      → IsForeign src
      → IsRanked src rank
      → rank t < suc n
      → EndsBelow load rank n
      → IsTrue same src c
      → Ends (load_fields same is_null identifier_numeric src load t c b)
  unfolding load_fields
  load_fields-Ends load rank n t c b s g k l h v =
      let (w, e) = definition_direct t c s v in
      elim (Bool-cases (is_structured same is_null identifier_numeric src b)) [
        | inr q ↦ rw q (v, λ z. cc)
        | inl q ↦ rw q (
            and_then-Ends (get_structure_definition same src t c)
              (λ d y. preload_fields same is_null identifier_numeric src load y.children d)
              (
                w,
                rw e (
                    found_foreign (src.get_structure_definition t) no_structure_definition (λ z. cc)
                      (g.1 t)),
              )
              (λ d y u z.
                fields_end load y.children d
                  (All-load load n rank t y.children
                    (k t y (
                      found-some (src.get_structure_definition t) no_structure_definition y
                        (sym e ∙ z)))
                    l h)
                  u))
      ]

  load_type-Ends :
      (load : UaNodeId → Cache → Cache × Result (Unit {0})) (rank : UaNodeId → ℕ) (n : ℕ)
      (t : UaNodeId) (c : Cache)
      → ((a b : UaNodeId) → same a b ≡ true → a ≡ b)
      → IsForeign src
      → IsRanked src rank
      → rank t < suc n
      → IsTrue same src c
      → EndsBelow load rank n
      → Ends (load_type same is_null identifier_numeric src load t c)
  unfolding load_type
  load_type-Ends load rank n t c s g k l v h =
      let (w, e) = super_types_direct t c s v in
      and_then-Ends (get_super_types same src t c)
        (λ d ts.
          and_then (d, base_type same is_null identifier_numeric src ts)
            (load_fields same is_null identifier_numeric src load t))
        (w, rw e (found_foreign (src.get_super_types t) no_super_types (λ z. cc) (g.0 t)))
        (λ d ts u z.
          and_then-Ends (d, base_type same is_null identifier_numeric src ts)
            (load_fields same is_null identifier_numeric src load t) (u, base_type_ends ts)
            (λ x b y z. load_fields-Ends load rank n t x b s g k l h y))

  preload_end :
      (rank : UaNodeId → ℕ) (n : ℕ) (t : UaNodeId) (c : Cache)
      → ((a b : UaNodeId) → same a b ≡ true → a ≡ b)
      → IsForeign src
      → IsRanked src rank
      → rank t < n
      → IsTrue same src c
      → Ends (preload same is_null identifier_numeric src n t c)
  unfolding preload
  preload_end rank zero t c s g k l v = absurd (omega arith)
  preload_end rank (suc n) t c s g k l v = elim (Bool-cases (ua_namespace t == 0)) [
    | inl e ↦ rw e (v, λ q. cc)
    | inr e ↦ rw e (
        load_type-Ends (preload same is_null identifier_numeric src n) rank n t c s g k l v
          (λ u d m w. preload_end rank n u d s g k m w))
  ]

  -- When the types of a structure's fields are of lower rank than the structure, as in a model without
  -- recursive types, `preload` of a type ends within one step more than the type's rank: it returns or
  -- throws what the source or its own tests throw, and leaves a cache whose entries are answers of the
  -- source, if they were so before.
  pub preload_ends :
      (rank : UaNodeId → ℕ) (t : UaNodeId) (c : Cache)
      → ((a b : UaNodeId) → same a b ≡ true → a ≡ b)
      → IsForeign src
      → IsRanked src rank
      → IsTrue same src c
      → IsTrue same src (preload same is_null identifier_numeric src (rank t + 1) t c).0
        × ((preload same is_null identifier_numeric src (rank t + 1) t c).1 ≢ throws too_deep)
  preload_ends rank t c s g k v = preload_end rank (rank t + 1) t c s g k (omega arith) v
