-- ===== src/Bridge/Calls.antt =====
-- src/sasModelProvider/base/HaNodeManagerIODataProviderBridge.cpp, beginCall. The log and the diagnostic
-- infos, which stay empty, are left out.
pub mod Conversions
pub mod Good
pub mod Errors
mod Tests
use opc_ua_server.Prelude.{
  ℕ, zero, suc, Bool, true, false, Option, none, some, List, [], ◌∷◌, if◌then◌else◌, length, ◌==◌,
}
use opc_ua_server.Prelude.Result.{Result, ok, throws, undefined, ◌>>=◌, fmap, out_of_range}
use opc_ua_server.Common.Exception.{Exception, get_error_code}
use opc_ua_server.Io
use opc_ua_server.Ua.Sdk.{UaNodeId}

-- What the code reads of a MethodData that is returned: the exception or the output arguments, null
-- pointers included.
pub record MethodData : Type 0 where
  pub exception : Option Exception
  pub method_arguments : List (Option Io.Variant)

-- The data provider throws, or it returns the results or a null pointer.
pub data Reply : Type 0 where
  replied : Option (List (Option MethodData)) → Reply
  refused : Exception → Reply

-- The components that the method calls: the converter and the data provider; and the SDK's test of a
-- status code.
pub record Environment : Type 1 where
  pub Value : Type 0
  pub null_value : Value
  pub convert_node_id : UaNodeId → Result Io.NodeId
  pub convert_value : Value → UaNodeId → Result Io.Variant
  pub to_value : Io.Variant → UaNodeId → Result Value
  pub call : Io.NodeId → Io.NodeId → List Io.Variant → Reply
  pub is_good : ℕ → Bool

-- The object and the method, with the data types that the variables InputArguments and OutputArguments
-- list. A method without outputs has no OutputArguments.
pub record Method : Type 0 where
  pub object_node_id : UaNodeId
  pub method_node_id : UaNodeId
  pub input_types : List UaNodeId
  pub output_types : Option (List UaNodeId)

-- OpcUa_Good and OpcUa_Bad.
abbrev pub good : ℕ
good = 0

abbrev pub bad : ℕ
bad = 2147483648

module _ (env : Environment) where
  -- What finishCall gets: whether the status of each input argument is good, the output values and
  -- the status.
  pub record Finish : Type 0 where
    pub codes : List Bool
    pub values : List env.Value
    pub status : ℕ

  unfoldable pub all_bad : List env.Value → List Bool
  all_bad [] = []
  all_bad (v ∷ vs) = false ∷ all_bad vs

  unfoldable pub nulls : List UaNodeId → List env.Value
  nulls [] = []
  nulls (t ∷ ts) = env.null_value ∷ nulls ts

  unfoldable pub add_input :
      Io.Variant → List Bool × Option (List Io.Variant) → List Bool × Option (List Io.Variant)
  add_input w (codes, none) = (true ∷ codes, none)
  add_input w (codes, some ws) = (true ∷ codes, some (w ∷ ws))

  -- The loop over the input values: the codes, and the converted values unless there was an
  -- exception. The exception of `at` is none that the method catches.
  unfoldable pub convert_inputs :
      List env.Value → List UaNodeId → Result (List Bool × Option (List Io.Variant))
  unfolding all_bad add_input
  convert_inputs [] ts = ok ([], some [])
  convert_inputs (v ∷ vs) [] = throws out_of_range
  convert_inputs (v ∷ vs) (t ∷ ts) =
      let rest = convert_inputs vs ts in
      elim (env.convert_value v t) [
        | ok w ↦ fmap (add_input w) rest
        | throws e ↦ ok (all_bad (v ∷ vs), none)
        | undefined ↦ undefined
      ]

  -- The loop over the output arguments, and whether it has come to its end.
  unfoldable pub convert_outputs :
      List (Option Io.Variant) → List UaNodeId → Result (List env.Value × Bool)
  unfolding nulls
  convert_outputs [] ts = ok (nulls ts, true)
  convert_outputs (w ∷ ws) [] = undefined
  convert_outputs (none ∷ ws) (t ∷ ts) =
      fmap (λ out. (env.null_value ∷ out.0, out.1)) (convert_outputs ws ts)
  convert_outputs (some w ∷ ws) (t ∷ ts) =
      let rest = convert_outputs ws ts in
      elim (env.to_value w t) [
        | ok v ↦ fmap (λ out. (v ∷ out.0, out.1)) rest
        | throws e ↦ ok (nulls (t ∷ ts), false)
        | undefined ↦ undefined
      ]

  -- The `catch`: an exception's code is the status, unless it is none or good.
  unfoldable pub status_of : Option ℕ → ℕ
  status_of none = bad
  status_of (some c) = if env.is_good c then bad else c

  unfoldable pub finish_outputs : List Bool → List env.Value × Bool → Finish
  finish_outputs codes (vs, true) = record { codes = codes; values = vs; status = good }
  finish_outputs codes (vs, false) = record { codes = codes; values = vs; status = bad }

  unfoldable pub failed : List Bool → List UaNodeId → Option ℕ → Finish
  unfolding nulls status_of
  failed codes ts code = record { codes = codes; values = nulls ts; status = status_of code }

  -- The result, without an exception: the numbers of the output arguments must be the same.
  unfoldable pub read_arguments :
      List Bool → List UaNodeId → List (Option Io.Variant) → Result Finish
  unfolding convert_outputs finish_outputs failed
  read_arguments codes ts ws =
      if length ws == length ts
      then fmap (finish_outputs codes) (convert_outputs ws ts)
      else ok (failed codes ts none)

  -- For a null result the message of the exception dereferences the null pointer.
  unfoldable pub read_result : List Bool → List UaNodeId → Option MethodData → Result Finish
  unfolding read_arguments failed
  read_result codes ts none = undefined
  read_result codes ts (some d) = elim d.exception [
    | some e ↦ ok (failed codes ts (get_error_code e))
    | none ↦ read_arguments codes ts d.method_arguments
  ]

  unfoldable pub read_reply : List Bool → List UaNodeId → Reply → Result Finish
  unfolding read_result failed
  read_reply codes ts (refused e) = ok (failed codes ts (get_error_code e))
  read_reply codes ts (replied (some (r ∷ []))) = read_result codes ts r
  read_reply codes ts (replied r) = ok (failed codes ts none)

  unfoldable pub output_types_of : Option (List UaNodeId) → List UaNodeId
  output_types_of none = []
  output_types_of (some ts) = ts

  -- The node ids of the object and the method.
  unfoldable pub call_method : Method → List Bool → List Io.Variant → Result (Reply)
  call_method m codes args = do
    o ← env.convert_node_id m.object_node_id
    i ← env.convert_node_id m.method_node_id
    ok (env.call o i args)

  unfoldable pub after_inputs : Method → List Bool × Option (List Io.Variant) → Result Finish
  unfolding call_method read_reply failed output_types_of
  after_inputs m (codes, none) = ok (failed codes (output_types_of m.output_types) none)
  after_inputs m (codes, some args) = elim (call_method m codes args) [
    | ok r ↦ read_reply codes (output_types_of m.output_types) r
    | throws e ↦ ok (failed codes (output_types_of m.output_types) none)
    | undefined ↦ undefined
  ]

  unfoldable pub begin_call : Method → List env.Value → Result Finish
  unfolding convert_inputs after_inputs
  begin_call m vs = convert_inputs vs m.input_types >>= after_inputs m
