-- ===== src/Bridge/Calls/Good.antt =====
-- src/sasModelProvider/base/HaNodeManagerIODataProviderBridge.cpp, beginCall: what a good status means.
use opc_ua_server.Prelude.{
  ℕ, Bool, true, false, Option, none, some, List, [], ◌∷◌, ◌≡◌, ◌≢◌, refl, ap, length, ◌==◌, ==_iff,
  arith, Bool-cases, Option-cases, inl, inr, ◌∙◌,
}
use opc_ua_server.Prelude.Result.{ok, Result-cases}
use opc_ua_server.Common.Exception.{get_error_code}
use opc_ua_server.Io
use opc_ua_server.Ua.Sdk.{UaNodeId}
use opc_ua_server.Bridge.Calls.Conversions.{
  Converted, Returned, convert_inputs_sound, convert_outputs_sound,
}
use opc_ua_server.Bridge.Calls.{
  MethodData, Reply, Environment, Method, Finish, good, bad, replied, refused, convert_inputs,
  convert_outputs, status_of, finish_outputs, failed, read_arguments, read_result, read_reply,
  output_types_of, call_method, after_inputs, begin_call,
}

module _ (env : Environment) where
  status_of_bad : (c : Option ℕ) → env.is_good good ≡ true → status_of env c ≢ good
  unfolding status_of
  status_of_bad c h e = ground arith

  read_arguments_sound :
      (codes : List Bool) (ts : List UaNodeId) (ws : List (Option Io.Variant)) (out : Finish env)
      → env.is_good good ≡ true
      → read_arguments env codes ts ws ≡ ok out
      → out.status ≡ good
      → Returned env ws ts out.values
  unfolding read_arguments failed finish_outputs
  read_arguments_sound codes ts ws out g e s = elim (Bool-cases (length ws == length ts)) [
    | inr h ↦ absurd (
        let f = rw (read_arguments, h) at e in
        let q : status_of env none ≡ out.status = cc in status_of_bad none g (q ∙ s))
    | inl h ↦ elim (Result-cases (convert_outputs env ws ts)) [
      | inr (inr k) ↦ absurd (let q = rw (read_arguments, h, k) at e in cc)
      | inr (inl (x, k)) ↦ absurd (let q = rw (read_arguments, h, k) at e in cc)
      | inl ((vs, true), k) ↦
          let f = rw (read_arguments, h, k) at e in
          let q : vs ≡ out.values = cc in
          rw (← q) (convert_outputs_sound env ws ts vs ((==_iff (length ws) (length ts)).0 h) k)
      | inl ((vs, false), k) ↦ absurd (
          let f = rw (read_arguments, h, k) at e in
          let q : bad ≡ out.status = cc in let r = q ∙ s in omega arith)
    ]
  ]

  failed_bad :
      (codes : List Bool) (ts : List UaNodeId) (c : Option ℕ) (out : Finish env)
      → env.is_good good ≡ true
      → ok (failed env codes ts c) ≡ ok out
      → out.status ≢ good
  unfolding failed
  failed_bad codes ts c out g e =
      let q : status_of env c ≡ out.status = cc in λ s. status_of_bad c g (q ∙ s)

  read_result_sound :
      (codes : List Bool) (ts : List UaNodeId) (r : Option MethodData) (out : Finish env)
      → env.is_good good ≡ true
      → read_result env codes ts r ≡ ok out
      → out.status ≡ good
      → (d : MethodData) × (r ≡ some d)
        × (d.exception ≡ none)
        × Returned env d.method_arguments ts out.values
  unfolding read_result
  read_result_sound codes ts none out g e s = absurd (cc)
  read_result_sound codes ts (some d) out g e s = elim (Option-cases d.exception) [
    | inl h ↦ (
      d,
      refl,
      h,
      read_arguments_sound codes ts d.method_arguments out g (rw (read_result, h) at e) s,
    )
    | inr (x, h) ↦
        absurd (failed_bad codes ts (get_error_code x) out g (rw (read_result, h) at e) s)
  ]

  read_reply_sound :
      (codes : List Bool) (ts : List UaNodeId) (r : Reply) (out : Finish env)
      → env.is_good good ≡ true
      → read_reply env codes ts r ≡ ok out
      → out.status ≡ good
      → (d : MethodData) × (r ≡ replied (some (some d ∷ [])))
        × (d.exception ≡ none)
        × Returned env d.method_arguments ts out.values
  unfolding read_reply
  read_reply_sound codes ts (refused x) out g e s =
      absurd (failed_bad codes ts (get_error_code x) out g e s)
  read_reply_sound codes ts (replied none) out g e s = absurd (failed_bad codes ts none out g e s)
  read_reply_sound codes ts (replied (some [])) out g e s =
      absurd (failed_bad codes ts none out g e s)
  read_reply_sound codes ts (replied (some (r ∷ []))) out g e s =
      let (d, a, b, c) = read_result_sound codes ts r out g e s in
      (d, ap (λ x. replied (some (x ∷ []))) a, b, c)
  read_reply_sound codes ts (replied (some (r ∷ q ∷ rs))) out g e s =
      absurd (failed_bad codes ts none out g e s)

  call_method_sound :
      (m : Method) (codes : List Bool) (args : List Io.Variant) (r : Reply)
      → call_method env m codes args ≡ ok r
      → (o : Io.NodeId) × (i : Io.NodeId) × (env.convert_node_id m.object_node_id ≡ ok o)
        × (env.convert_node_id m.method_node_id ≡ ok i)
        × (env.call o i args ≡ r)
  unfolding call_method
  call_method_sound m codes args r e = elim (Result-cases (env.convert_node_id m.object_node_id)) [
    | inr (inr h) ↦ absurd (let q = rw (call_method, h) at e in cc)
    | inr (inl (x, h)) ↦ absurd (let q = rw (call_method, h) at e in cc)
    | inl (o, h) ↦ elim (Result-cases (env.convert_node_id m.method_node_id)) [
      | inr (inr k) ↦ absurd (let q = rw (call_method, h, k) at e in cc)
      | inr (inl (x, k)) ↦ absurd (let q = rw (call_method, h, k) at e in cc)
      | inl (i, k) ↦ let q = rw (call_method, h, k) at e in (o, i, h, k, cc)
    ]
  ]

  -- When beginCall finishes a call with a good status, which the SDK's test of a status takes for good,
  -- then every input value has been converted for the data type of its argument, the object's and the
  -- method's ids have been converted, the data provider was called with just these and returned exactly
  -- one result, without an exception, and the output values are the conversions of its arguments for
  -- the data types of the outputs, one for each.
  pub begin_call-good :
      (m : Method) (vs : List env.Value) (out : Finish env)
      → env.is_good good ≡ true
      → begin_call env m vs ≡ ok out
      → out.status ≡ good
      → (args : List Io.Variant) × (o : Io.NodeId) × (i : Io.NodeId) × (d : MethodData) × Converted
          env vs m.input_types args
        × (env.convert_node_id m.object_node_id ≡ ok o)
        × (env.convert_node_id m.method_node_id ≡ ok i)
        × (env.call o i args ≡ replied (some (some d ∷ [])))
        × (d.exception ≡ none)
        × Returned env d.method_arguments (output_types_of env m.output_types) out.values
  unfolding begin_call after_inputs
  begin_call-good m vs out g e s = elim (Result-cases (convert_inputs env vs m.input_types)) [
    | inr (inr h) ↦ absurd (let q = rw (begin_call, h) at e in cc)
    | inr (inl (x, h)) ↦ absurd (let q = rw (begin_call, h) at e in cc)
    | inl ((codes, none), h) ↦ absurd (
        failed_bad codes (output_types_of env m.output_types) none out g (rw (begin_call, h) at e)
          s)
    | inl ((codes, some args), h) ↦ elim (Result-cases (call_method env m codes args)) [
      | inr (inr k) ↦ absurd (let q = rw (begin_call, h, after_inputs, k) at e in cc)
      | inr (inl (x, k)) ↦ absurd (
          failed_bad codes (output_types_of env m.output_types) none out g
            (rw (begin_call, h, after_inputs, k) at e) s)
      | inl (r, k) ↦
          let (d, a, b, c) =
            read_reply_sound codes (output_types_of env m.output_types) r out g
              (rw (begin_call, h, after_inputs, k) at e) s in
          let (o, i, n, p, q) = call_method_sound m codes args r k in
          (args, o, i, d, convert_inputs_sound env vs m.input_types codes args h, n, p, q ∙ a, b, c)
    ]
  ]
