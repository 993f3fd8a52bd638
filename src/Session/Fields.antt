-- ===== src/Session/Fields.antt =====
-- src/binaryServer/HaSession.cpp, getEventFields. The stack has room for a number of calls, one for a type
-- on the way to its super types; a deeper recursion is undefined behaviour.
use opc_ua_server.Prelude.{
  ℕ, zero, suc, Bool, true, false, not, ◌&&◌, Option, none, some, List, [], ◌∷◌, ◌++◌, Text,
  text_eq, if◌then◌else◌, ◌==◌,
}
use opc_ua_server.Prelude.Result.{Result, ok, throws, undefined, ◌>>=◌, fmap, bad_answer}
use opc_ua_server.Ua.Sdk.{UaNodeId}
use opc_ua_server.Session.{UaSession, NodeAttributes, Reference, has_subtype}
use opc_ua_server.Session.Reading.{read}

-- The name and the data type are null where the exception is not.
pub record EventField : Type 0 where
  pub node_id : UaNodeId
  pub qualified_name : Option Text
  pub data_type_id : Option UaNodeId
  pub has_exception : Bool

abbrev failed_field : UaNodeId → EventField
failed_field n = record {
  node_id = n;
  qualified_name = none;
  data_type_id = none;
  has_exception = true;
}

-- The test for a duplicate name: the name of each field so far is dereferenced.
unfoldable pub is_known : Text → List EventField → Result Bool
unfolding text_eq
is_known q [] = ok false
is_known q (f ∷ fs) =
    let rest = is_known q fs in
    elim f.qualified_name [ none ↦ undefined | some p ↦ if text_eq p q then ok true else rest ]

unfoldable pub is_sub_type : Reference → Bool
is_sub_type r = r.reference_type == has_subtype

module _ {Value : Type 0} where
  -- The data type of a field, read by its own; exceptions become the field's.
  unfoldable pub new_field : Reference → Result (List (NodeAttributes Value)) → Result EventField
  new_field r undefined = undefined
  new_field r (throws e) = ok (failed_field r.node_id)
  new_field r (ok []) = ok (failed_field r.node_id)
  new_field r (ok (x ∷ xs)) =
      if x.has_exception then ok (failed_field r.node_id) else elim x.data_type [
        | none ↦ undefined
        | some t ↦ ok record {
          node_id = r.node_id;
          qualified_name = some r.browse_name;
          data_type_id = some t;
          has_exception = false;
        }
      ]

  module _ (same : UaNodeId → UaNodeId → Bool) (s : UaSession Value) where
    unfoldable pub append_field : Reference → List EventField → Bool → Result (List EventField)
    unfolding new_field read
    append_field r fs true = ok fs
    append_field r fs false =
        fmap (λ f. fs ++ f ∷ []) (new_field r (read same (some s) (r.node_id ∷ [])))

    unfoldable pub add_variable : Reference → List EventField → Result (List EventField)
    unfolding is_known append_field is_sub_type
    add_variable r fs =
        if is_sub_type r then ok fs else is_known r.browse_name fs >>= append_field r fs

    unfoldable pub add_variables : List Reference → List EventField → Result (List EventField)
    unfolding add_variable
    add_variables [] fs = ok fs
    add_variables (r ∷ rs) fs = add_variable r fs >>= add_variables rs

    -- The `catch`: the super type could not be browsed, so no field is added.
    unfoldable pub caught : List EventField → Result (List EventField) → Result (List EventField)
    caught fs (throws e) = ok fs
    caught fs r = r

    -- The loop over the super types, by the call for each of them.
    unfoldable pub add_super_types :
        (UaNodeId → List EventField → Result (List EventField))
        → List Reference
        → List EventField
        → Result (List EventField)
    unfolding caught is_sub_type
    add_super_types go [] fs = ok fs
    add_super_types go (r ∷ rs) fs =
        (if is_sub_type r && not r.is_forward then caught fs (go r.node_id fs) else ok fs)
        >>= add_super_types go rs

    unfoldable pub get_event_fields : ℕ → UaNodeId → List EventField → Result (List EventField)
    unfolding add_variables add_super_types
    get_event_fields zero t fs = undefined
    get_event_fields (suc n) t fs = elim (s.browse t) [
      | none ↦ throws bad_answer
      | some rs ↦ add_variables rs fs >>= add_super_types (get_event_fields n) rs
    ]
