-- ===== src/Session/Tests.antt =====
-- A session with a variable, an event type and nothing else.
use opc_ua_server.Prelude.{
  ℕ, Bool, true, false, none, some, Option, List, [], ◌∷◌, ◌≡◌, refl, ap, Text, text_eq,
  text_eq_refl, text_eq_iff, map, if◌then◌else◌, ◌==◌,
}
use opc_ua_server.Prelude.Result.{ok, undefined}
use opc_ua_server.Ua.Sdk.{UaNodeId, numeric, string, guid, opaque}
use opc_ua_server.EventTypes.{find, assign}
use opc_ua_server.Session.{
  Attribute, node_class, value, data_type, UaSession, refused, Reference, create, with_session,
}
use opc_ua_server.Session.Reading.{
  read, read_open, read_values, read_attributes, read_requests, requests, requests_of, attr_to_read,
  store_all, store, change_at, classify, classify_node, mark, places, merge_all, merge, or_else,
}
use opc_ua_server.Session.Describing.{IsEquality, describe, describe_values, describe_event_type}
use opc_ua_server.Session.Reads.{read-describe}
use opc_ua_server.Session.Fields.{
  get_event_fields, add_variables, add_variable, append_field, new_field, is_known, is_sub_type,
  add_super_types, caught,
}

-- The text of a node id.
abbrev key : UaNodeId → Text
key (numeric ns i) = 0 ∷ ns ∷ i ∷ []
key (string ns s) = 1 ∷ ns ∷ s
key (guid ns) = 2 ∷ ns ∷ []
key (opaque ns) = 3 ∷ ns ∷ []

abbrev pub same : UaNodeId → UaNodeId → Bool
same a b = text_eq (key a) (key b)

pub same-IsEquality : IsEquality same
same-IsEquality = record {
  reflexive = λ a. text_eq_refl (key a);
  substitutive = λ a b c h. ap (text_eq (key c)) ((text_eq_iff (key a) (key b)).0 h);
}

abbrev answer_at : ℕ → Attribute → Option ℕ
answer_at i node_class = if i == 1 then some 2 else if i == 2 then some 8 else none
answer_at i value = if i == 1 then some 7 else none
answer_at i data_type = if i == 1 then some 6 else none

abbrev pub answer : UaNodeId × Attribute → Option ℕ
answer (numeric ns i, a) = answer_at i a
answer r = none

abbrev field_reference : ℕ → Text → Reference
field_reference i q = record {
  node_id = numeric 2 i;
  browse_name = q;
  reference_type = 46;
  is_forward = true;
}

-- The event type has twice a field of one name. The first field of the other type cannot be read.
abbrev references_at : ℕ → Option (List Reference)
references_at i =
    if i == 2
    then some (field_reference 1 (65 ∷ []) ∷ field_reference 1 (65 ∷ []) ∷ [])
    else if i == 3
    then some (field_reference 9 (65 ∷ []) ∷ field_reference 1 (66 ∷ []) ∷ [])
    else none

abbrev references : UaNodeId → Option (List Reference)
references (numeric ns i) = references_at i
references n = none

abbrev pub session : UaSession ℕ
session = record {
  read = λ rs. some (map answer rs);
  write = λ nodes. none;
  browse = references;
  call = λ m o vs. refused 5;
  get_method_arguments = λ m. none;
  is_null = λ n. false;
  to_int32 = λ v. v;
  to_node_id = λ v. numeric 0 v;
  byte_one = 1;
}

abbrev pub nodes : List UaNodeId
nodes = numeric 2 1 ∷ numeric 2 2 ∷ numeric 2 9 ∷ []

read_nodes :
    map (describe session answer) nodes
    ≡ record {
      node_id = numeric 2 1;
      value = some 7;
      data_type = some (numeric 0 6);
      node_class = some 2;
      has_exception = false;
    }
      ∷ record {
        node_id = numeric 2 2;
        value = some 1;
        data_type = some (numeric 0 3);
        node_class = some 8;
        has_exception = false;
      }
      ∷ record {
        node_id = numeric 2 9;
        value = none;
        data_type = none;
        node_class = none;
        has_exception = true;
      }
      ∷ []
unfolding describe create describe_values describe_event_type
read_nodes = refl

-- Of two equal nodes only the last gets a value.
read_twice :
    read same (some session) (numeric 2 1 ∷ numeric 2 1 ∷ [])
    ≡ ok (
        record {
          node_id = numeric 2 1;
          value = none;
          data_type = none;
          node_class = some 2;
          has_exception = false;
        }
        ∷ record {
          node_id = numeric 2 1;
          value = some 7;
          data_type = some (numeric 0 6);
          node_class = some 2;
          has_exception = false;
        }
        ∷ [])
unfolding read with_session read_open read_values read_attributes read_requests requests requests_of
    attr_to_read store_all store change_at classify classify_node mark places merge_all merge
    or_else create find assign text_eq
read_twice = refl

-- A name is taken once.
fields_once :
    get_event_fields same session 1 (numeric 2 2) []
    ≡ ok (
        record {
          node_id = numeric 2 1;
          qualified_name = some (65 ∷ []);
          data_type_id = some (numeric 0 6);
          has_exception = false;
        }
        ∷ [])
unfolding get_event_fields add_variables add_variable append_field new_field is_known is_sub_type
    add_super_types caught read with_session read_open read_values read_attributes read_requests
    requests requests_of attr_to_read store_all store change_at classify classify_node mark places
    merge_all merge or_else create find assign text_eq
fields_once = refl

-- After a field that could not be read, the test for its name dereferences a null pointer.
null_name : get_event_fields same session 1 (numeric 2 3) [] ≡ undefined
unfolding get_event_fields add_variables add_variable append_field new_field is_known is_sub_type
    add_super_types caught read with_session read_open read_values read_attributes read_requests
    requests requests_of attr_to_read store_all store change_at classify classify_node mark places
    merge_all merge or_else create find assign text_eq
null_name = refl

read-describe_example : read same (some session) nodes ≡ ok (map (describe session answer) nodes)
unfolding text_eq
read-describe_example =
    read-describe session answer same nodes same-IsEquality (λ rs. refl)
      ((refl, (refl, tt)), ((refl, tt), (tt, tt)))
