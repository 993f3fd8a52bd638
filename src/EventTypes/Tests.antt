-- ===== src/EventTypes/Tests.antt =====
-- A registry with three event types.
use opc_ua_server.Prelude.{
  bytes, ℕ, ◌≡◌, ◌≢◌, refl, Bool, false, ◌&&◌, none, some, List, [], ◌∷◌, Text, ◌==◌, show_nat,
  text_eq,
}
use opc_ua_server.Ua.Sdk.{UaNodeId, numeric}
use opc_ua_server.EventTypes.{
  Registry, find, get_key, field_of, register_event_type, register_event_field,
  get_event_field_node_id,
}
use opc_ua_server.EventTypes.Walk.{
  Step, event_type, event_field, apply, get_event_field_node_id_ends,
  get_event_field_node_id-inherits, get_event_field_node_id-register_event_field,
}
use opc_ua_server.EventTypes.Data.{
  create, add_field_data, get_field_data, given, get_field_data-add_field_data,
}

abbrev same_numbers : UaNodeId → UaNodeId → Bool
same_numbers (numeric ns i) (numeric ms j) = ns == ms && i == j
same_numbers s t = false

abbrev xml : UaNodeId → Text
xml (numeric ns i) = i ∷ ns ∷ []
xml t = []

-- The base type 2041, an alarm type below it, and a pump's alarm below that.
abbrev base : UaNodeId
base = numeric 0 2041

abbrev alarm : UaNodeId
alarm = numeric 2 10

abbrev pump_alarm : UaNodeId
pump_alarm = numeric 2 11

abbrev id_of : UaNodeId → ℕ
id_of (numeric ns i) = i
id_of t = 0

abbrev steps : List Step
steps =
    event_type alarm pump_alarm ∷ event_field alarm (numeric 2 77) 4 ∷ event_type base alarm ∷ []

-- The pump's alarm has the field of the alarm type.
inherited_field :
    get_event_field_node_id xml same_numbers 4 pump_alarm 4 (apply same_numbers xml steps)
    ≡ some (some (numeric 2 77))
unfolding get_event_field_node_id apply find field_of get_key text_eq show_nat register_event_type
    register_event_field
inherited_field = refl

get_event_field_node_id_ends_example :
    get_event_field_node_id xml same_numbers 4 pump_alarm 4 (apply same_numbers xml steps) ≢ none
unfolding find apply register_event_type register_event_field
get_event_field_node_id_ends_example =
    get_event_field_node_id_ends same_numbers xml steps pump_alarm 4
      (refl, refl, (refl, tt), (refl, refl, tt, tt))

abbrev alarms : Registry
alarms = record { event_types = (alarm, base) ∷ []; event_fields = [] }

field_of_super_type :
    get_event_field_node_id xml same_numbers 3 pump_alarm 4
      (register_event_type same_numbers alarm pump_alarm alarms)
    ≡ get_event_field_node_id xml same_numbers 2 alarm 4 alarms
unfolding find field_of
field_of_super_type =
    get_event_field_node_id-inherits same_numbers xml alarms alarm pump_alarm 4 2 refl refl refl
      (refl, tt) refl

registered_field_found :
    get_event_field_node_id xml same_numbers 1 alarm 4
      (register_event_field xml alarm (numeric 2 77) 4 alarms)
    ≡ some (some (numeric 2 77))
registered_field_found =
    get_event_field_node_id-register_event_field same_numbers xml alarms alarm (numeric 2 77) 4 0

-- An event of the alarm type with one field.
added_data_found :
    get_field_data xml same_numbers 1
      (register_event_field xml alarm (numeric 2 77) 4 alarms)
      (add_field_data same_numbers (numeric 2 77) (bytes "hot") (create id_of alarm))
      4
    ≡ some (given (bytes "hot"))
unfolding create
added_data_found =
    get_field_data-add_field_data same_numbers xml alarms (create id_of alarm) (numeric 2 77) 4 0
      (bytes "hot") refl
