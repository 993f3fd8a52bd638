-- ===== src/Client/Cache/Transparent.antt =====
-- src/binaryServer/CachedConverterCallback.cpp: the answers of the cache and those of its source.
use opc_ua_server.Prelude.{
  Bool, true, none, some, List, [], ◌∷◌, ◌≡◌, refl, sym, Option-cases, Bool-cases, inl, inr, ap,
}
use opc_ua_server.Prelude.Result.{
  Result, ok, throws, undefined, ◌>>=◌, no_structure_definition, no_super_types,
}
use opc_ua_server.Ua.Sdk.{UaNodeId, StructureDefinition}
use opc_ua_server.EventTypes.{find}
use opc_ua_server.EventTypes.Walk.{assign-absent}
use opc_ua_server.Client.Cache.{
  Cache, Source, found, get_super_types, get_structure_definition, store_super_types,
  store_structure_definition,
}

-- A question for the cache.
pub data Question : Type 0 where
  super_types_of structure_definition_of : UaNodeId → Question

pub data Answer : Type 0 where
  super_types : Result (List UaNodeId) → Answer
  structure_definition : Result StructureDefinition → Answer

-- The answer of the source itself.
abbrev pub ask : Source → Question → Answer
ask src (super_types_of t) = super_types (src.get_super_types t >>= found no_super_types)
ask src (structure_definition_of t) =
    structure_definition (src.get_structure_definition t >>= found no_structure_definition)

abbrev pub ask_all : Source → List Question → List Answer
ask_all src [] = []
ask_all src (q ∷ qs) = ask src q ∷ ask_all src qs

-- Each entry is what the source answers.
abbrev pub Agrees : {A : Type 0} → (UaNodeId → Result A) → List (UaNodeId × A) → Type 0
Agrees answer [] = Unit {0}
Agrees answer ((t, x) ∷ m) = (answer t ≡ ok x) × Agrees answer m

Agrees-find :
    {A : Type 0} (same : UaNodeId → UaNodeId → Bool) (answer : UaNodeId → Result A)
    (m : List (UaNodeId × A)) (t : UaNodeId) (x : A)
    → ((a b : UaNodeId) → same a b ≡ true → a ≡ b)
    → Agrees answer m
    → find same t m ≡ some x
    → answer t ≡ ok x
unfolding find
Agrees-find same answer [] t x s a h = absurd (cc)
Agrees-find same answer ((u, y) ∷ m) t x s (a, b) h = elim (Bool-cases (same t u)) [
  | inl e ↦ let k = rw e at h in let q = s t u e in cc
  | inr e ↦ Agrees-find same answer m t x s b (rw e at h)
]

module _ (same : UaNodeId → UaNodeId → Bool) where
  -- The cache after a question, with the answer.
  unfoldable pub look_up : Source → Question → Cache → Cache × Answer
  unfolding get_super_types get_structure_definition
  look_up src (super_types_of t) c =
      let out = get_super_types same src t c in (out.0, super_types out.1)
  look_up src (structure_definition_of t) c =
      let out = get_structure_definition same src t c in (out.0, structure_definition out.1)

  unfoldable pub look_up_all : Source → List Question → Cache → List Answer
  unfolding look_up
  look_up_all src [] c = []
  look_up_all src (q ∷ qs) c = let out = look_up src q c in out.1 ∷ look_up_all src qs out.0

  abbrev pub IsTrue : Source → Cache → Type 0
  IsTrue src c =
      Agrees (λ t. src.get_super_types t >>= found no_super_types) c.super_types
      × Agrees (λ t. src.get_structure_definition t >>= found no_structure_definition)
          c.structure_definitions

  store_super_types-IsTrue :
      (src : Source) (t : UaNodeId) (c : Cache) (r : Result (List UaNodeId))
      → IsTrue src c
      → find same t c.super_types ≡ none
      → (src.get_super_types t >>= found no_super_types) ≡ r
      → IsTrue src (store_super_types same src t c r)
  unfolding store_super_types
  store_super_types-IsTrue src t c (ok ts) (a, b) h e =
      rw (assign-absent same t ts c.super_types h) ((e, a), b)
  store_super_types-IsTrue src t c (throws x) v h e = v
  store_super_types-IsTrue src t c undefined v h e = v

  store_structure_definition-IsTrue :
      (src : Source) (t : UaNodeId) (c : Cache) (r : Result StructureDefinition)
      → IsTrue src c
      → find same t c.structure_definitions ≡ none
      → (src.get_structure_definition t >>= found no_structure_definition) ≡ r
      → IsTrue src (store_structure_definition same src t c r)
  unfolding store_structure_definition
  store_structure_definition-IsTrue src t c (ok d) (a, b) h e =
      rw (assign-absent same t d c.structure_definitions h) (a, (e, b))
  store_structure_definition-IsTrue src t c (throws x) v h e = v
  store_structure_definition-IsTrue src t c undefined v h e = v

  pub look_up-IsTrue :
      (src : Source) (q : Question) (c : Cache)
      → ((a b : UaNodeId) → same a b ≡ true → a ≡ b)
      → IsTrue src c
      → IsTrue src (look_up src q c).0 × ((look_up src q c).1 ≡ ask src q)
  unfolding look_up get_super_types get_structure_definition
  look_up-IsTrue src (super_types_of t) c s v = elim (Option-cases (find same t c.super_types)) [
    | inl e ↦
        rw (e, get_super_types)
          (
            store_super_types-IsTrue src t c (src.get_super_types t >>= found no_super_types) v e
                refl,
            refl,
          )
    | inr (x, e) ↦
        rw (e, get_super_types)
          (
            v,
            ap super_types (
                sym (
                  Agrees-find same (λ t. src.get_super_types t >>= found no_super_types)
                    c.super_types t x s v.0 e)),
          )
  ]
  look_up-IsTrue src (structure_definition_of t) c s v =
      elim (Option-cases (find same t c.structure_definitions)) [
        | inl e ↦
            rw (e, get_structure_definition)
              (
                store_structure_definition-IsTrue src t c
                    (src.get_structure_definition t >>= found no_structure_definition) v e refl,
                refl,
              )
        | inr (x, e) ↦
            rw (e, get_structure_definition)
              (
                v,
                ap structure_definition (
                    sym (
                      Agrees-find same
                        (λ t. src.get_structure_definition t >>= found no_structure_definition)
                        c.structure_definitions t x s v.1 e)),
              )
      ]

  -- To any questions in any order, a cache whose entries are answers of the source, such as a cleared
  -- one, gives the answers that the source itself would give to each, exceptions included, when the
  -- map's order takes no two node ids for one.
  pub look_up_all-ask_all :
      (src : Source) (qs : List Question) (c : Cache)
      → ((a b : UaNodeId) → same a b ≡ true → a ≡ b)
      → IsTrue src c
      → look_up_all src qs c ≡ ask_all src qs
  unfolding look_up_all
  look_up_all-ask_all src [] c s v = refl
  look_up_all-ask_all src (q ∷ qs) c s v =
      let out = look_up-IsTrue src q c s v in
      rw (out.1, look_up_all-ask_all src qs (look_up src q c).0 s out.0) refl
