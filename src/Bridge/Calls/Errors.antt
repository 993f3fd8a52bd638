-- ===== src/Bridge/Calls/Errors.antt =====
-- src/sasModelProvider/base/HaNodeManagerIODataProviderBridge.cpp, beginCall: the exceptions of the data
-- provider.
use opc_ua_server.Prelude.{Bool, some, List, [], ◌∷◌, ◌≡◌, refl, ◌⊎◌, inl, inr}
use opc_ua_server.Prelude.Result.{ok}
use opc_ua_server.Common.Exception.{Exception, get_error_code}
use opc_ua_server.Io
use opc_ua_server.Ua.Sdk.{UaNodeId}
use opc_ua_server.Bridge.Calls.Conversions.{Converted, all_good, convert_inputs_complete}
use opc_ua_server.Bridge.Calls.{
  MethodData, Reply, Environment, Method, replied, refused, status_of, failed, read_result,
  read_reply, output_types_of, call_method, after_inputs, begin_call, nulls,
}

module _ (env : Environment) where
  -- The data provider throws the exception, or it returns it in its only result.
  abbrev pub Refuses : Reply → Exception → Type 0
  Refuses r e =
      (r ≡ refused e)
      ⊎ ((d : MethodData) × (r ≡ replied (some (some d ∷ []))) × (d.exception ≡ some e))

  read_reply-Refuses :
      (codes : List Bool) (ts : List UaNodeId) (r : Reply) (e : Exception)
      → Refuses r e
      → read_reply env codes ts r ≡ ok (failed env codes ts (get_error_code e))
  unfolding read_reply read_result
  read_reply-Refuses codes ts r e (inl h) = rw h refl
  read_reply-Refuses codes ts r e (inr (d, h, k)) = rw (h, read_reply, read_result, k) refl

  -- When every input value and both node ids convert and the data provider throws an exception, or
  -- returns one in its result, beginCall finishes with good codes for the inputs, null values for the
  -- outputs, and the first error code along the exception's causes as the status; without a code, or
  -- with a good one, the status is OpcUa_Bad.
  pub begin_call-Refuses :
      (m : Method) (vs : List env.Value) (args : List Io.Variant) (o i : Io.NodeId) (r : Reply)
      (e : Exception)
      → Converted env vs m.input_types args
      → env.convert_node_id m.object_node_id ≡ ok o
      → env.convert_node_id m.method_node_id ≡ ok i
      → env.call o i args ≡ r
      → Refuses r e
      → begin_call env m vs
        ≡ ok (record {
          codes = all_good env vs;
          values = nulls env (output_types_of env m.output_types);
          status = status_of env (get_error_code e);
        })
  unfolding begin_call after_inputs call_method failed
  begin_call-Refuses m vs args o i r e c h k q f =
      rw
        (
          begin_call,
          convert_inputs_complete env vs m.input_types args c,
          after_inputs,
          call_method,
          h,
          k,
          q,
        )
        (read_reply-Refuses (all_good env vs) (output_types_of env m.output_types) r e f)
