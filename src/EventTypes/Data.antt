-- ===== src/EventTypes/Data.antt =====
-- src/sasModelProvider/base/EventTypeData.cpp: the data of an event's fields, where `V` is UaVariant.
use opc_ua_server.Prelude.{ℕ, suc, ◌≡◌, ap, ◌∙◌, Bool, true, Option, none, some, List, [], Text}
use opc_ua_server.Ua.Sdk.{UaNodeId, ua_namespace, numeric}
use opc_ua_server.EventTypes.{Registry, find, assign, register_event_field, get_event_field_node_id}
use opc_ua_server.EventTypes.Walk.{find-assign, get_event_field_node_id-register_event_field}

pub record EventTypeData (V : Type 0) : Type 0 where
  pub event_type_id : UaNodeId
  pub field_data : List (UaNodeId × V)

-- The constructor keeps a numeric id: `identifier_numeric` is the SDK's `identifierNumeric`.
unfoldable pub create : {V : Type 0} → (UaNodeId → ℕ) → UaNodeId → EventTypeData V
unfolding ua_namespace
create identifier_numeric t = record {
  event_type_id = numeric (ua_namespace t) (identifier_numeric t);
  field_data = [];
}

unfoldable pub add_field_data :
    {V : Type 0} → (UaNodeId → UaNodeId → Bool) → UaNodeId → V → EventTypeData V → EventTypeData V
unfolding assign
add_field_data same field v d = record {
  event_type_id = d.event_type_id;
  field_data = assign same field v d.field_data;
}

-- What getFieldData does: it asks the base class, logs that the data is missing, or gives the data.
pub data FieldData (V : Type 0) : Type 0 where
  of_base missing : FieldData V
  given : V → FieldData V

data_for : {V : Type 0} → Option V → FieldData V
data_for none = missing
data_for (some v) = given v

found_data :
    {V : Type 0}
    → (UaNodeId → UaNodeId → Bool)
    → List (UaNodeId × V)
    → Option (Option UaNodeId)
    → Option (FieldData V)
unfolding data_for find
found_data same m none = none
found_data same m (some none) = some of_base
found_data same m (some (some f)) = some (data_for (find same f m))

unfoldable pub get_field_data :
    {V : Type 0}
    → (UaNodeId → Text)
    → (UaNodeId → UaNodeId → Bool)
    → ℕ
    → Registry
    → EventTypeData V
    → ℕ
    → Option (FieldData V)
unfolding found_data
get_field_data to_xml_string same fuel r d i =
    found_data same d.field_data
      (get_event_field_node_id to_xml_string same fuel d.event_type_id i r)

-- For a field that was registered for the event's type and whose data was added, getFieldData gives
-- that data, where a node id is the same as itself for the map, whatever else is registered or added.
pub get_field_data-add_field_data :
    {V : Type 0} (same : UaNodeId → UaNodeId → Bool) (to_xml_string : UaNodeId → Text)
    (r : Registry) (d : EventTypeData V) (f : UaNodeId) (i n : ℕ) (v : V)
    → same f f ≡ true
    → get_field_data to_xml_string same
        (suc n)
        (register_event_field to_xml_string d.event_type_id f i r)
        (add_field_data same f v d)
        i
      ≡ some (given v)
unfolding get_field_data add_field_data found_data data_for
get_field_data-add_field_data same to_xml_string r d f i n v h =
    ap (found_data same (assign same f v d.field_data))
      (get_event_field_node_id-register_event_field same to_xml_string r d.event_type_id f i n)
    ∙ ap (λ o. some (data_for o)) (find-assign same f v d.field_data h)
