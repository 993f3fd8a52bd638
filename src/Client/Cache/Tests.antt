-- ===== src/Client/Cache/Tests.antt =====
-- A cache for two structures, the second with the first as a field, and a third that has itself.
use opc_ua_server.Prelude.{
  ℕ, zero, suc, Bool, true, false, Option, none, some, List, [], ◌∷◌, ◌≡◌, ◌≢◌, refl, bytes, ◌==◌,
  ◌&&◌, arith,
}
use opc_ua_server.Prelude.Result.{ok, throws, too_deep}
use opc_ua_server.Ua.Sdk.{
  UaNodeId, numeric, string, guid, opaque, StructureDefinition, StructureField, ua_namespace,
}
use opc_ua_server.Client.Cache.{Cache, Source, preload, base_type, is_structured}
use opc_ua_server.Ua.ToUa.{last_of}
use opc_ua_server.Client.Cache.Transparent.{
  Question, super_types_of, structure_definition_of, look_up_all, ask_all, IsTrue,
  look_up_all-ask_all,
}
use opc_ua_server.Client.Cache.Preload.{IsForeign, IsRanked, preload_ends}
use opc_ua_server.Client.Cache.Recursive.{preload-recursive}

abbrev same_numbers : UaNodeId → UaNodeId → Bool
same_numbers (numeric ns i) (numeric ms j) = ns == ms && i == j
same_numbers s t = false

same_numbers_sound : (a b : UaNodeId) → same_numbers a b ≡ true → a ≡ b
same_numbers_sound (numeric ns i) (numeric ms j) e = ground arith
same_numbers_sound (numeric ns i) (string ms j) e = absurd (cc)
same_numbers_sound (numeric ns i) (guid ms) e = absurd (cc)
same_numbers_sound (numeric ns i) (opaque ms) e = absurd (cc)
same_numbers_sound (string ns i) b e = absurd (cc)
same_numbers_sound (guid ns) b e = absurd (cc)
same_numbers_sound (opaque ns) b e = absurd (cc)

abbrev no_null : UaNodeId → Bool
no_null t = false

abbrev number : UaNodeId → ℕ
number (numeric ns i) = i
number t = 0

abbrev field : UaNodeId → StructureField
field t = record { name = bytes "f"; type_id = t; is_optional = false }

abbrev definition : List UaNodeId → StructureDefinition
definition [] = record { is_union = false; children = [] }
definition (t ∷ ts) = record { is_union = false; children = field t ∷ [] }

-- The type 2 has a field of the type 1, and the type 3 one of its own; others are not known.
abbrev definition_of : UaNodeId → Option StructureDefinition
definition_of (numeric ns (suc zero)) = some (definition (numeric 0 11 ∷ []))
definition_of (numeric ns (suc (suc zero))) = some (definition (numeric 2 1 ∷ []))
definition_of t = none

abbrev plain : Source
plain = record {
  get_structure_definition = λ t. ok (definition_of t);
  get_super_types = λ t. ok (some (numeric 0 22 ∷ []));
}

abbrev recursive : Source
recursive = record {
  get_structure_definition = λ t. ok (some (definition (t ∷ [])));
  get_super_types = λ t. ok (some (numeric 0 22 ∷ []));
}

abbrev empty : Cache
empty = record { super_types = []; structure_definitions = [] }

abbrev questions : List Question
questions =
    structure_definition_of (numeric 2 2)
    ∷ super_types_of (numeric 2 1)
    ∷ structure_definition_of (numeric 2 2)
    ∷ structure_definition_of (numeric 2 9)
    ∷ []

look_up_all-ask_all_example :
    look_up_all same_numbers plain questions empty ≡ ask_all plain questions
look_up_all-ask_all_example =
    look_up_all-ask_all same_numbers plain questions empty same_numbers_sound (tt, tt)

abbrev rank : UaNodeId → ℕ
rank (numeric ns (suc (suc zero))) = 2
rank (numeric ns (suc zero)) = 1
rank t = 0

plain-IsForeign : IsForeign plain
plain-IsForeign = (λ t e. cc, λ t e. cc)

plain-IsRanked : IsRanked plain rank
plain-IsRanked (numeric ns zero) d e = absurd (cc)
plain-IsRanked (numeric ns (suc zero)) d e =
    let q : definition (numeric 0 11 ∷ []) ≡ d = cc in rw (← q) (omega arith, tt)
plain-IsRanked (numeric ns (suc (suc zero))) d e =
    let q : definition (numeric 2 1 ∷ []) ≡ d = cc in rw (← q) (omega arith, tt)
plain-IsRanked (numeric ns (suc (suc (suc i)))) d e = absurd (cc)
plain-IsRanked (string ns i) d e = absurd (cc)
plain-IsRanked (guid ns) d e = absurd (cc)
plain-IsRanked (opaque ns) d e = absurd (cc)

preload_ends_example :
    IsTrue same_numbers plain (preload same_numbers no_null number plain 3 (numeric 2 2) empty).0
    × ((preload same_numbers no_null number plain 3 (numeric 2 2) empty).1 ≢ throws too_deep)
preload_ends_example =
    preload_ends same_numbers no_null number plain rank (numeric 2 2) empty same_numbers_sound
      plain-IsForeign plain-IsRanked (tt, tt)

-- All types are known after that.
preloaded : (preload same_numbers no_null number plain 3 (numeric 2 2) empty).1 ≡ ok tt
unfolding preload ua_namespace
preloaded = refl

preload-recursive_example :
    (preload same_numbers no_null number recursive 50 (numeric 2 3) empty).1 ≡ throws too_deep
unfolding base_type is_structured last_of ua_namespace
preload-recursive_example =
    preload-recursive same_numbers no_null number recursive 50 (numeric 2 3) (numeric 0 22)
      (numeric 0 22 ∷ []) (definition (numeric 2 3 ∷ [])) (field (numeric 2 3)) [] empty
      same_numbers_sound refl refl refl refl refl refl refl (tt, tt)
