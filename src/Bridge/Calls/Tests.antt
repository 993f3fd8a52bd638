-- ===== src/Bridge/Calls/Tests.antt =====
-- A call of a method with two inputs and an output.
use opc_ua_server.Prelude.{
  ℕ, true, false, none, some, List, [], ◌∷◌, ◌≡◌, refl, ◌==◌, bytes, inl, ltb, if◌then◌else◌,
}
use opc_ua_server.Prelude.Int.{pos}
use opc_ua_server.Prelude.Result.{Result, ok, throws, no_conversion}
use opc_ua_server.Common.Exception.{Exception, plain, caused, get_error_code}
use opc_ua_server.Io
use opc_ua_server.Ua.Sdk.{UaNodeId, numeric}
use opc_ua_server.Bridge.Calls.Conversions.{Converted, Returned, all_good}
use opc_ua_server.Bridge.Calls.Good.{begin_call-good}
use opc_ua_server.Bridge.Calls.Errors.{begin_call-Refuses}
use opc_ua_server.Bridge.Calls.{
  MethodData, Reply, Environment, Method, Finish, good, bad, replied, refused, begin_call,
  output_types_of, status_of, nulls,
}

abbrev convert : Io.Variant → UaNodeId → Result Io.Variant
convert w (numeric ns i) = if i == 99 then throws no_conversion else ok w
convert w t = throws no_conversion

abbrev id_of : UaNodeId → Result Io.NodeId
id_of (numeric ns i) = ok (Io.NodeId.numeric (pos ns) (pos i))
id_of t = throws no_conversion

abbrev on : Io.Variant
on = Io.Variant.scalar (Io.Scalar.bool true)

abbrev off : Io.Variant
off = Io.Variant.scalar (Io.Scalar.bool false)

-- The device's exception has the code of a timeout at its cause.
abbrev timeout : Exception
timeout =
    caused (bytes "call") (bytes "a.cpp") 3 none
      (plain (bytes "timeout") (bytes "b.cpp") 7 (some 2148139008))

abbrev answer : Io.NodeId → List Io.Variant → Reply
answer (Io.NodeId.numeric ns (pos i)) (w ∷ ws) =
    if i == 5
    then replied (some (some (record { exception = none; method_arguments = some w ∷ [] }) ∷ []))
    else refused timeout
answer o ws = refused timeout

abbrev env : Environment
env = record {
  Value = Io.Variant;
  null_value = off;
  convert_node_id = id_of;
  convert_value = convert;
  to_value = convert;
  call = λ o i args. answer i args;
  is_good = λ c. ltb c 1073741824;
}

abbrev method : ℕ → Method
method i = record {
  object_node_id = numeric 2 4;
  method_node_id = numeric 2 i;
  input_types = numeric 0 1 ∷ numeric 0 1 ∷ [];
  output_types = some (numeric 0 1 ∷ []);
}

abbrev finished : Finish env
finished = record { codes = true ∷ true ∷ []; values = on ∷ []; status = good }

called : begin_call env (method 5) (on ∷ off ∷ []) ≡ ok finished
unfolding begin_call
called = refl

-- The second input does not convert: its code and the status are bad.
not_converted :
    begin_call env
      (record (method 5) { input_types = numeric 0 1 ∷ numeric 0 99 ∷ [] })
      (on ∷ off ∷ [])
    ≡ ok (record { codes = true ∷ false ∷ []; values = off ∷ []; status = bad })
unfolding begin_call
not_converted = refl

begin_call-good_example :
    (args : List Io.Variant) × (o : Io.NodeId) × (i : Io.NodeId) × (d : MethodData) × Converted env
      (on ∷ off ∷ [])
      (method 5).input_types
      args
    × (id_of (numeric 2 4) ≡ ok o)
    × (id_of (numeric 2 5) ≡ ok i)
    × (answer i args ≡ replied (some (some d ∷ [])))
    × (d.exception ≡ none)
    × Returned env d.method_arguments (output_types_of env (method 5).output_types) (on ∷ [])
begin_call-good_example = begin_call-good env (method 5) (on ∷ off ∷ []) finished refl called refl

refused_call :
    begin_call env (method 6) (on ∷ off ∷ [])
    ≡ ok (record { codes = true ∷ true ∷ []; values = off ∷ []; status = 2148139008 })
unfolding status_of nulls output_types_of all_good get_error_code
refused_call =
    begin_call-Refuses env (method 6) (on ∷ off ∷ []) (on ∷ off ∷ [])
      (Io.NodeId.numeric (pos 2) (pos 4)) (Io.NodeId.numeric (pos 2) (pos 6)) (refused timeout)
      timeout (refl, (refl, tt)) refl refl refl (inl refl)
