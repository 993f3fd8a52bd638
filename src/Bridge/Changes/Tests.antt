-- ===== src/Bridge/Changes/Tests.antt =====
-- An event of the data provider with values for variables that are known and one that is not.
use opc_ua_server.Prelude.{
  ℕ, Bool, true, Option, none, some, List, [], ◌∷◌, ◌++◌, ◌≡◌, refl, bytes, c_str, if◌then◌else◌,
  ltb, ◌↔◌, ◌≤◌, ◌+◌, ◌*◌,
}
use opc_ua_server.Prelude.Int.{pos, negsuc}
use opc_ua_server.Prelude.Result.{Result, ok, throws, undefined, no_conversion}
use opc_ua_server.Io
use opc_ua_server.Ua.Sdk.{UaNodeId, numeric}
use opc_ua_server.Bridge.{Variable}
use opc_ua_server.Bridge.Changes.{
  Environment, FiredEvent, field_data, variable_set, fired, ua_time, epoch, process, values_changed,
}
use opc_ua_server.Bridge.Changes.Order.{values_changed-effects, values_changed_dropped, ua_time_iff}

abbrev id_of : Io.NodeId → Result UaNodeId
id_of (Io.NodeId.numeric (pos ns) (pos i)) = ok (numeric ns i)
id_of k = throws no_conversion

-- The variables are below 10.
abbrev variable_of : UaNodeId → Option Variable
variable_of (numeric ns i) =
    if ltb i 10 then some (record { node_id = numeric ns i; data_type = numeric 0 1 }) else none
variable_of t = none

abbrev env : Environment
env = record {
  Value = Option Io.Variant;
  null_value = none;
  convert_node_id = id_of;
  to_value = λ w t. ok (some w);
  get_node = λ t. some (bytes "pump");
  get_variable = variable_of;
  set_variable = λ x v. ok tt;
}

abbrev node : ℕ → Io.NodeId
node i = Io.NodeId.numeric (pos 2) (pos i)

abbrev flag : Bool → Io.Variant
flag b = Io.Variant.scalar (Io.Scalar.bool b)

abbrev sent : Io.NodeId → Option Io.Variant → Io.NodeData
sent k w = record { node = k; payload = w; exception = none }

abbrev variable : ℕ → Variable
variable i = record { node_id = numeric 2 i; data_type = numeric 0 1 }

abbrev alarm : Io.NodeData
alarm = sent (node 40) (
    some (
      Io.Variant.event_data (node 5) (bytes "high") (pos 7) (
        Io.EventFields.event_field (node 6) (Io.Payload.value (flag true)) none
          Io.EventFields.no_fields)))

abbrev fired_alarm : FiredEvent env
fired_alarm = record {
  event_type = numeric 2 40;
  source_node = numeric 2 5;
  source_name = bytes "pump";
  message = bytes "high";
  severity = pos 7;
  time = pos 116444736000010000;
  field_data = (numeric 2 6, some (flag true)) ∷ [];
}

-- The second id does not convert.
abbrev before : List Io.NodeData
before =
    sent (node 1) (some (flag true)) ∷ sent (Io.NodeId.numeric (pos 2) (negsuc 0)) none ∷ alarm ∷ []

abbrev mixed : List Io.NodeData
mixed = before ++ sent (node 12) none ∷ sent (node 3) (some (flag true)) ∷ []

-- The node 12 is no variable: the value for the variable 3 has no effect.
values_changed-effects_example :
    values_changed env (pos 1) mixed
    ≡ ok (variable_set (variable 1) (some (flag true)) ∷ fired fired_alarm ∷ [])
unfolding process ua_time c_str field_data
values_changed-effects_example =
    values_changed-effects env (pos 1) mixed (tt, (tt, (tt, (tt, (tt, tt)))))

values_changed_dropped_example :
    values_changed env (pos 0) mixed ≡ values_changed env (pos 0) before
values_changed_dropped_example =
    values_changed_dropped env (pos 0) before (sent (node 12) none) (numeric 2 12)
      (sent (node 3) (some (flag true)) ∷ []) refl refl tt

ua_time_iff_example : (ua_time (pos 5) ≡ ok (pos (5 * 10000 + epoch))) ↔ (5 ≤ 910692730085477)
ua_time_iff_example = ua_time_iff 5

-- A time at which the sum overflows.
late : ua_time (pos 910692730085478) ≡ undefined
unfolding ua_time
late = refl
