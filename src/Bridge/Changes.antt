-- ===== src/Bridge/Changes.antt =====
-- src/sasModelProvider/base/IODataProviderSubscriberCallback.cpp: the values and events that the data
-- provider sends. What the callback does to the node manager is a list of effects.
pub mod Events
pub mod Order
mod Tests
use opc_ua_server.Prelude.{
  ℕ, suc, ◌+◌, ◌*◌, ◌-◌, Bool, true, false, Option, none, some, List, [], ◌∷◌, if◌then◌else◌, ltb,
  leb, Text, c_str,
}
use opc_ua_server.Prelude.Int.{ℤ, pos, negsuc}
use opc_ua_server.Prelude.Result.{
  Result, ok, throws, undefined, ◌>>=◌, fmap, unknown_source_node, unknown_event_field,
}
use opc_ua_server.Io
use opc_ua_server.Ua.Sdk.{UaNodeId}
use opc_ua_server.Bridge.{Variable}

-- The components that the callback uses: the converter, the node browser, with the browse name of a
-- node, and the node manager.
pub record Environment : Type 1 where
  pub Value : Type 0
  pub null_value : Value
  pub convert_node_id : Io.NodeId → Result UaNodeId
  pub to_value : Io.Variant → UaNodeId → Result Value
  pub get_node : UaNodeId → Option Text
  pub get_variable : UaNodeId → Option Variable
  pub set_variable : Variable → Value → Result (Unit {0})

-- 01.01.1601 - 01.01.1970 in units of 100 ns.
abbrev pub epoch : ℕ
epoch = 116444736000000000

-- time * 10000 + 116444736000000000 on `long long`, whose overflow is undefined.
unfoldable pub ua_time : ℤ → Result ℤ
ua_time (pos n) =
    if ltb (n * 10000 + epoch) 9223372036854775808 then ok (pos (n * 10000 + epoch)) else undefined
ua_time (negsuc n) =
    if ltb 9223372036854775808 (suc n * 10000)
    then undefined
    else if leb (suc n * 10000) epoch
    then ok (pos (epoch - suc n * 10000))
    else ok (negsuc (suc n * 10000 - epoch - 1))

module _ (env : Environment) where
  -- The event that is fired. The time of its receipt is that of the clock, and is left out.
  pub record FiredEvent : Type 0 where
    pub event_type : UaNodeId
    pub source_node : UaNodeId
    pub source_name : Text
    pub message : Text
    pub severity : ℤ
    pub time : ℤ
    pub field_data : List (UaNodeId × env.Value)

  -- setVariable, or fireEvent.
  pub data Effect : Type 0 where
    variable_set : Variable → env.Value → Effect
    fired : FiredEvent → Effect

  unfoldable pub payload_value : Io.Payload → UaNodeId → Result env.Value
  payload_value Io.Payload.null t = ok env.null_value
  payload_value (Io.Payload.value w) t = env.to_value w t

  unfoldable pub field_variable : Option Variable → Result Variable
  field_variable none = throws unknown_event_field
  field_variable (some x) = ok x

  -- The loop over the fields of an event.
  unfoldable pub field_data : Io.EventFields → Result (List (UaNodeId × env.Value))
  unfolding payload_value field_variable
  field_data Io.EventFields.no_fields = ok []
  field_data (Io.EventFields.event_field k w x fs) = do
    id ← env.convert_node_id k
    v ← field_variable (env.get_variable id)
    u ← payload_value w v.data_type
    rest ← field_data fs
    ok ((id, u) ∷ rest)

  unfoldable pub source_name_of : Option Text → Result Text
  source_name_of none = throws unknown_source_node
  source_name_of (some name) = ok name

  unfoldable pub process_opc_ua_event :
      ℤ → UaNodeId → Io.NodeId → Text → ℤ → Io.EventFields → Result FiredEvent
  unfolding source_name_of field_data ua_time
  process_opc_ua_event time type source message severity fs = do
    id ← env.convert_node_id source
    name ← source_name_of (env.get_node id)
    t ← ua_time time
    fields ← field_data fs
    ok (record {
      event_type = type;
      source_node = id;
      source_name = name;
      message = c_str message;
      severity = severity;
      time = t;
      field_data = fields;
    })

  -- A value for a variable, or none for an unknown one.
  unfoldable pub set_value : Option Variable → Option Io.Variant → Result (Option Effect)
  set_value none w = ok none
  set_value (some x) none =
      fmap (λ u. some (variable_set x env.null_value)) (env.set_variable x env.null_value)
  set_value (some x) (some w) = do
    v ← env.to_value w x.data_type
    fmap (λ u. some (variable_set x v)) (env.set_variable x v)

  unfoldable pub change : ℤ → UaNodeId → Option Io.Variant → Result (Option Effect)
  unfolding process_opc_ua_event set_value
  change time id (some (Io.Variant.event_data source message severity fs)) =
      fmap (λ e. some (fired e)) (process_opc_ua_event time id source message severity fs)
  change time id w = set_value (env.get_variable id) w

  -- The body of the loop. Without an effect the method returns.
  unfoldable pub process : ℤ → Io.NodeData → Result (Option Effect)
  unfolding change
  process time d = env.convert_node_id d.node >>= λ id. change time id d.payload

  -- The effect comes before those of the rest; an exception is kept, and never thrown.
  unfoldable pub proceed : Result (Option Effect) → Result (List Effect) → Result (List Effect)
  proceed undefined rest = undefined
  proceed (throws e) rest = rest
  proceed (ok none) rest = ok []
  proceed (ok (some f)) rest = fmap (λ fs. f ∷ fs) rest

  unfoldable pub values_changed : ℤ → List Io.NodeData → Result (List Effect)
  unfolding process proceed
  values_changed time [] = ok []
  values_changed time (d ∷ ds) = proceed (process time d) (values_changed time ds)
