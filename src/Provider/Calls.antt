-- ===== src/Provider/Calls.antt =====
-- src/provider/binary/jDataProvider/JDataProvider.cpp, call. Of the exception for a method the code is
-- kept. The outputs converted before an exception stay.
use opc_ua_server.Prelude.{ℕ, Bool, true, false, Option, none, some, List, [], ◌∷◌, Text, c_str}
use opc_ua_server.Prelude.Int.{ℤ, to_unsigned}
use opc_ua_server.Prelude.Result.{Result, ok, throws, undefined, ◌>>=◌, fmap}
use opc_ua_server.Io
use opc_ua_server.Binary.Dto
use opc_ua_server.Binary.Converter.{param_id_of_node_id, bin_to_io, io_to_bin}
use opc_ua_server.Ua.Sdk.{UaNodeId}
use opc_ua_server.Client.Model.{Fields}

-- The method by the node browser, null or with the types of its output arguments if it has such a variable;
-- the method of Java, with the object that it returns, which may be null, and its exception with a
-- code that may be null; and the conversion of an object.
pub record Environment : Type 1 where
  pub Object : Type 0
  pub get_method : UaNodeId → Option (Option (List UaNodeId))
  pub find_field_model : UaNodeId → Fields → Fields × Result Bool
  pub update_model : Fields → Result (Unit {0})
  pub exec : ℤ → Text → Text → List Dto.Variant → Option Object × Option (Option ℕ)
  pub get_variant : Object → Result Dto.Variant

pub record MethodData : Type 0 where
  pub object : Io.NodeId
  pub method : Io.NodeId
  pub arguments : List Io.Variant

-- The exception by its code.
pub record Answer : Type 0 where
  pub object : Io.NodeId
  pub method : Io.NodeId
  pub outputs : List Io.Variant
  pub exception : Option (Option ℕ)

-- getString of a numeric id dereferences a null pointer.
unfoldable pub get_string : Dto.ParamId → Result Text
get_string (Dto.ParamId.numeric ns i) = undefined
get_string (Dto.ParamId.string ns s) = ok (c_str s)

unfoldable pub namespace_of : Dto.ParamId → ℤ
namespace_of (Dto.ParamId.numeric ns i) = ns
namespace_of (Dto.ParamId.string ns s) = ns

unfoldable pub inputs : List Io.Variant → Result (List Dto.Variant)
unfolding io_to_bin
inputs [] = ok []
inputs (w ∷ ws) = io_to_bin w >>= λ v. fmap (λ vs. v ∷ vs) (inputs ws)

-- The elements of the array that Java returns; another variant is no array.
unfoldable pub elements_of : Dto.Variant → Result Dto.Elements
elements_of (Dto.Variant.array t es) = ok es
elements_of v = undefined

-- The outputs, and whether a conversion throws.
unfoldable pub outputs_of : ℤ → Dto.Elements → Result (List Io.Variant × Bool)
unfolding bin_to_io
outputs_of ns Dto.Elements.nil = ok ([], false)
outputs_of ns (Dto.Elements.cons v es) =
    let rest = outputs_of ns es in
    elim (bin_to_io v ns) [
      | undefined ↦ undefined
      | throws e ↦ ok ([], true)
      | ok w ↦ fmap (λ out. (w ∷ out.0, out.1)) rest
    ]

module _ (env : Environment) where
  -- The map that is given to native2j is a new one of the loop, and is empty; the member has the fields.
  unfoldable pub update_types : List UaNodeId → Fields → Fields × Result (Unit {0})
  update_types [] m = (m, ok tt)
  update_types (t ∷ ts) m =
      let (fields, changed) = env.find_field_model t m in
      let (rest, r) = update_types ts fields in
      elim changed [
        | undefined ↦ (fields, undefined)
        | throws e ↦ (fields, throws e)
        | ok b ↦ elim b [
          | false ↦ (rest, r)
          | true ↦ elim (env.update_model []) [
            | undefined ↦ (fields, undefined)
            | throws e ↦ (fields, throws e)
            | ok u ↦ (rest, r)
          ]
        ]
      ]

  unfoldable pub update_method : UaNodeId → Fields → Fields × Result (Unit {0})
  unfolding update_types
  update_method n m = elim (env.get_method n) [
    | none ↦ (m, undefined)
    | some none ↦ (m, ok tt)
    | some (some ts) ↦ update_types ts m
  ]

  abbrev answer : MethodData → List Io.Variant → Option (Option ℕ) → Answer
  answer d ws e = record { object = d.object; method = d.method; outputs = ws; exception = e }

  -- An exception of the conversions has no code.
  unfoldable pub result_answer : MethodData → Result (List Io.Variant × Bool) → Result Answer
  result_answer d undefined = undefined
  result_answer d (throws e) = ok (answer d [] (some none))
  result_answer d (ok (ws, true)) = ok (answer d ws (some none))
  result_answer d (ok (ws, false)) = ok (answer d ws none)

  -- The switch on the status. The code of Java's exception is dereferenced.
  unfoldable pub read_result :
      ℤ → MethodData → Option env.Object × Option (Option ℕ) → Result Answer
  unfolding elements_of outputs_of result_answer
  read_result ns d (x, some none) = undefined
  read_result ns d (x, some (some c)) = ok (answer d [] (some (some c)))
  read_result ns d (none, none) = ok (answer d [] none)
  read_result ns d (some x, none) =
      result_answer d (env.get_variant x >>= elements_of >>= outputs_of ns)

  -- The `catch` block.
  unfoldable pub caught : MethodData → Result Answer → Result Answer
  caught d (throws e) = ok (answer d [] (some none))
  caught d r = r

  unfoldable pub exec_method : ℤ → MethodData → Result Answer
  unfolding get_string inputs read_result param_id_of_node_id
  exec_method ns d = do
    o ← get_string (param_id_of_node_id d.object)
    m ← get_string (param_id_of_node_id d.method)
    vs ← inputs d.arguments
    read_result ns d (env.exec ns m o vs)

  unfoldable pub method_node : Dto.ParamId → Result UaNodeId
  unfolding get_string namespace_of
  method_node p = fmap (λ s. UaNodeId.string (to_unsigned 65536 (namespace_of p)) s) (get_string p)

  unfoldable pub call_method : ℤ → MethodData → Fields → Fields × Result Answer
  unfolding method_node update_method exec_method caught param_id_of_node_id
  call_method ns d m = elim (method_node (param_id_of_node_id d.method)) [
    | undefined ↦ (m, undefined)
    | throws e ↦ (m, ok (answer d [] (some none)))
    | ok n ↦
        let (fields, updated) = update_method n m in
        (fields, caught d (updated >>= λ u. exec_method ns d))
  ]

  unfoldable pub call_methods : ℤ → List MethodData → Fields → Fields × Result (List Answer)
  unfolding call_method
  call_methods ns [] m = (m, ok [])
  call_methods ns (d ∷ ds) m =
      let (fields, a) = call_method ns d m in
      let (rest, others) = call_methods ns ds fields in
      (rest, a >>= λ x. fmap (λ xs. x ∷ xs) others)
