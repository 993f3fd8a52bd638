-- ===== src/Client/Cache.antt =====
-- src/binaryServer/CachedConverterCallback.cpp: the type information that a session has asked for. A
-- method leaves the cache also when it throws. The mutex makes each of them one step. `preload` is on
-- fuel, one unit for a level of nested structures.
pub mod Transparent
pub mod Preload
pub mod Recursive
mod Tests
use opc_ua_server.Prelude.{
  ℕ, zero, suc, Bool, true, false, Option, none, some, List, [], ◌∷◌, if◌then◌else◌, ◌==◌, ◌||◌,
}
use opc_ua_server.Prelude.Result.{
  Error, Result, ok, throws, undefined, ◌>>=◌, fmap, no_base_type, no_structure_definition,
  no_super_types, too_deep,
}
use opc_ua_server.Ua.Sdk.{
  UaNodeId, StructureDefinition, StructureField, ua_namespace, id_structure, id_union,
}
use opc_ua_server.Ua.ToUa.{last_of}
use opc_ua_server.EventTypes.{find, assign}

-- superTypes and structureDefinitions.
pub record Cache : Type 0 where
  pub super_types : List (UaNodeId × List UaNodeId)
  pub structure_definitions : List (UaNodeId × StructureDefinition)

-- The callback that the cache asks: null is a null pointer or a null definition.
pub record Source : Type 0 where
  pub get_structure_definition : UaNodeId → Result (Option StructureDefinition)
  pub get_super_types : UaNodeId → Result (Option (List UaNodeId))

abbrev pub clear : Cache → Cache
clear c = record { super_types = []; structure_definitions = [] }

-- A null answer is an exception.
unfoldable pub found {ℓ} : {A : Type ℓ} → Error → Option A → Result A
found why none = throws why
found why (some x) = ok x

module _ (same : UaNodeId → UaNodeId → Bool) (src : Source) where
  unfoldable pub store_super_types : UaNodeId → Cache → Result (List UaNodeId) → Cache
  unfolding assign
  store_super_types t c (ok ts) = record c { super_types = assign same t ts c.super_types }
  store_super_types t c r = c

  unfoldable pub get_super_types : UaNodeId → Cache → Cache × Result (List UaNodeId)
  unfolding find found store_super_types
  get_super_types t c = elim (find same t c.super_types) [
    | some ts ↦ (c, ok ts)
    | none ↦
        let answer = src.get_super_types t >>= found no_super_types in
        (store_super_types t c answer, answer)
  ]

  unfoldable pub store_structure_definition : UaNodeId → Cache → Result StructureDefinition → Cache
  unfolding assign
  store_structure_definition t c (ok d) = record c {
    structure_definitions = assign same t d c.structure_definitions;
  }
  store_structure_definition t c r = c

  unfoldable pub get_structure_definition : UaNodeId → Cache → Cache × Result StructureDefinition
  unfolding find found store_structure_definition
  get_structure_definition t c = elim (find same t c.structure_definitions) [
    | some d ↦ (c, ok d)
    | none ↦
        let answer = src.get_structure_definition t >>= found no_structure_definition in
        (store_structure_definition t c answer, answer)
  ]

-- The next statement, unless there was an exception.
unfoldable pub and_then {ℓ κ} :
    {A : Type ℓ} {B : Type κ} → Cache × Result A → (Cache → A → Cache × Result B) → Cache × Result B
and_then (c, ok x) next = next c x
and_then (c, throws e) next = (c, throws e)
and_then (c, undefined) next = (c, undefined)

module _ (same : UaNodeId → UaNodeId → Bool) (is_null : UaNodeId → Bool)
    (identifier_numeric : UaNodeId → ℕ) (src : Source) where
  -- The type at the end of the super types, if there is one that is not null.
  unfoldable pub base_type : List UaNodeId → Result UaNodeId
  unfolding last_of
  base_type ts = last_of ts >>= λ b. if is_null b then throws no_base_type else ok b

  unfoldable pub is_structured : UaNodeId → Bool
  is_structured b = identifier_numeric b == id_structure || identifier_numeric b == id_union

  -- The fields of a structure in their order, by a function for a type.
  unfoldable pub preload_fields :
      (UaNodeId → Cache → Cache × Result (Unit {0}))
      → List StructureField
      → Cache
      → Cache × Result (Unit {0})
  unfolding and_then
  preload_fields load [] c = (c, ok tt)
  preload_fields load (f ∷ fs) c = and_then (load f.type_id c) (λ d u. preload_fields load fs d)

  -- The switch on the base type.
  unfoldable pub load_fields :
      (UaNodeId → Cache → Cache × Result (Unit {0}))
      → UaNodeId
      → Cache
      → UaNodeId
      → Cache × Result (Unit {0})
  unfolding and_then is_structured preload_fields get_structure_definition
  load_fields load t c b =
      if is_structured b
      then and_then (get_structure_definition same src t c)
          (λ d s. preload_fields load s.children d)
      else (c, ok tt)

  -- The statements after the test of the namespace.
  unfoldable pub load_type :
      (UaNodeId → Cache → Cache × Result (Unit {0})) → UaNodeId → Cache → Cache × Result (Unit {0})
  unfolding and_then base_type load_fields get_super_types
  load_type load t c =
      and_then (get_super_types same src t c)
        (λ d ts. and_then (d, base_type ts) (load_fields load t))

  unfoldable pub preload : ℕ → UaNodeId → Cache → Cache × Result (Unit {0})
  unfolding load_type
  preload zero t c = (c, throws too_deep)
  preload (suc n) t c =
      let load = preload n in if ua_namespace t == 0 then (c, ok tt) else load_type load t c
