-- ===== src/Client/Requests.antt =====
-- src/binaryServer/Client.cpp: the requests of the binary protocol. The converter of
-- src/sasModelProvider/base is a parameter for values; the ids go through its functions for them. The SDK's
-- session takes its own nodes, by `same` those of one text.
pub mod Answers
mod Tests
use opc_ua_server.Prelude.{
  ℕ, Bool, true, false, Option, none, some, List, [], ◌∷◌, if◌then◌else◌, length, ◌==◌, ◌++◌,
}
use opc_ua_server.Prelude.Int.{ℤ}
use opc_ua_server.Prelude.Result.{
  Error, Result, ok, throws, undefined, ◌>>=◌, fmap, bad_node, call_failed, cannot_add,
}
use opc_ua_server.Io
use opc_ua_server.Binary.Dto
use opc_ua_server.Binary.Converter.{node_id_of_param_id, param_id_of_node_id, bin_to_io, io_to_bin}
use opc_ua_server.Ua.Sdk.{UaNodeId}
use opc_ua_server.Ua.ToUa.{ua_node_id}
use opc_ua_server.Ua.ToIo.{io_node_id}
use opc_ua_server.Client.Cache
use opc_ua_server.Subscription
use opc_ua_server.Session.{UaSession, NodeAttributes}
use opc_ua_server.Session.Reading
use opc_ua_server.Session.Methods
use opc_ua_server.Session.Fields.{EventField}
use opc_ua_server.Session.Connection
use opc_ua_server.Session.Connection.{State, Outcome, returned, thrown, stuck, FieldMap}

-- convertIo2ua and convertUa2io of values, for a data type.
pub record Converter (Value : Type 0) : Type 0 where
  pub to_ua : Io.Variant → UaNodeId → Result Value
  pub to_io : Value → UaNodeId → Result Io.Variant

-- The conversions of ids, by the namespace index of the client.
unfoldable pub id_to_ua : ℤ → Dto.ParamId → UaNodeId
unfolding node_id_of_param_id ua_node_id
id_to_ua ns p = ua_node_id (node_id_of_param_id p ns)

unfoldable pub id_to_bin : UaNodeId → Result Dto.ParamId
unfolding param_id_of_node_id io_node_id
id_to_bin n = fmap param_id_of_node_id (io_node_id n)

-- What a CallResponse that is returned says.
pub data CallResponse : Type 0 where
  success : List Dto.Variant → CallResponse
  invalid_parameter : CallResponse

-- getErrorCode of what the session throws.
unfoldable pub error_code : Error → Option ℕ
error_code (call_failed c) = some c
error_code e = none

-- A null pointer is dereferenced.
unfoldable pub dereference : {A : Type 0} → Option A → Result A
dereference none = undefined
dereference (some x) = ok x

module _ {Value : Type 0} (conv : Converter Value) where
  unfoldable pub value_to_bin : Value → UaNodeId → Result Dto.Variant
  unfolding io_to_bin
  value_to_bin v src = conv.to_io v src >>= io_to_bin

  unfoldable pub attributes_to_bin : NodeAttributes Value → Result Dto.Variant
  unfolding dereference value_to_bin
  attributes_to_bin x = do v ← dereference x.value; t ← dereference x.data_type; value_to_bin v t

module _ {Value : Type 0} (conv : Converter Value) (ns : ℤ) where
  unfoldable pub value_to_ua : Dto.Variant → UaNodeId → Result Value
  unfolding bin_to_io
  value_to_ua v dest = bin_to_io v ns >>= λ w. conv.to_ua w dest

  -- The first of the attributes that were read, and its exception.
  unfoldable pub first_attributes : List (NodeAttributes Value) → Result (NodeAttributes Value)
  first_attributes [] = undefined
  first_attributes (x ∷ xs) = if x.has_exception then throws bad_node else ok x

  module _ (same : UaNodeId → UaNodeId → Bool) (session : Option (UaSession Value)) where
    unfoldable pub read_attributes : UaNodeId → Result (NodeAttributes Value)
    unfolding Reading.read first_attributes
    read_attributes n = Reading.read same session (n ∷ []) >>= first_attributes

    -- The response: the id and the value.
    unfoldable pub read : Dto.ParamId → Result (Dto.ParamId × Dto.Variant)
    unfolding id_to_ua read_attributes attributes_to_bin
    read p = fmap (λ v. (p, v)) (read_attributes (id_to_ua ns p) >>= attributes_to_bin conv)

    unfoldable pub attributes_from_bin : Dto.Variant → NodeAttributes Value → Result Value
    unfolding dereference value_to_ua
    attributes_from_bin w x = dereference x.data_type >>= value_to_ua w

    unfoldable pub write : Dto.ParamId → Dto.Variant → Result (Unit {0})
    unfolding id_to_ua read_attributes attributes_from_bin Methods.write
    write p w = do
      x ← read_attributes (id_to_ua ns p)
      v ← attributes_from_bin w x
      Methods.write session ((id_to_ua ns p, v) ∷ [])

    -- As many parameters as arguments.
    unfoldable pub convert_inputs : List Dto.Variant → List UaNodeId → Result (List Value)
    unfolding value_to_ua
    convert_inputs [] ts = ok []
    convert_inputs (w ∷ ws) [] = undefined
    convert_inputs (w ∷ ws) (t ∷ ts) = do
      v ← value_to_ua w t
      vs ← convert_inputs ws ts
      ok (v ∷ vs)

    -- A value without an argument is out of bounds.
    unfoldable pub convert_outputs : List Value → List UaNodeId → Result (List Dto.Variant)
    unfolding value_to_bin
    convert_outputs [] ts = ok []
    convert_outputs (v ∷ vs) [] = undefined
    convert_outputs (v ∷ vs) (t ∷ ts) = do
      w ← value_to_bin conv v t
      ws ← convert_outputs vs ts
      ok (w ∷ ws)

    unfoldable pub check_inputs : List Dto.Variant → List UaNodeId → Result (List Value)
    unfolding convert_inputs
    check_inputs ws ts = if length ws == length ts then convert_inputs ws ts else throws cannot_add

    -- The `try` block.
    unfoldable pub call_method : UaNodeId → UaNodeId → List Dto.Variant → Result (List Dto.Variant)
    unfolding Methods.get_method_arguments Methods.call check_inputs convert_outputs
    call_method m o ws = do
      args ← Methods.get_method_arguments session m
      vs ← check_inputs ws args.0
      outs ← Methods.call session m o vs
      convert_outputs outs args.1

    -- The `catch` block: an exception with an error code is thrown again, any other is a response.
    unfoldable pub respond : Result (List Dto.Variant) → Result CallResponse
    unfolding error_code
    respond undefined = undefined
    respond (ok ws) = ok (success ws)
    respond (throws e) = elim (error_code e) [ none ↦ ok invalid_parameter | some c ↦ throws e ]

    unfoldable pub call : Dto.ParamId → Dto.ParamId → List Dto.Variant → Result CallResponse
    unfolding id_to_ua call_method respond
    call m o ws = respond (call_method (id_to_ua ns m) (id_to_ua ns o) ws)

-- The type information of what was subscribed to is loaded; the cache stays when it throws.
module _ (same : UaNodeId → UaNodeId → Bool) (is_null : UaNodeId → Bool)
    (identifier_numeric : UaNodeId → ℕ) (src : Cache.Source) (fuel : ℕ) where
  unfoldable pub preload_type : Option UaNodeId → Cache.Cache → Cache.Cache × Result (Unit {0})
  unfolding Cache.preload
  preload_type none c = (c, undefined)
  preload_type (some t) c = Cache.preload same is_null identifier_numeric src fuel t c

  unfoldable pub preload_all :
      List (Option UaNodeId) → Cache.Cache → Cache.Cache × Result (Unit {0})
  unfolding preload_type Cache.and_then
  preload_all [] c = (c, ok tt)
  preload_all (t ∷ ts) c = Cache.and_then (preload_type t c) (λ d u. preload_all ts d)

unfoldable pub field_types : List EventField → List (Option UaNodeId)
field_types [] = []
field_types (f ∷ fs) = f.data_type_id ∷ field_types fs

unfoldable pub map_types : FieldMap → List (Option UaNodeId)
unfolding field_types
map_types [] = []
map_types ((n, fs) ∷ m) = (some n ∷ field_types fs) ++ map_types m

unfoldable pub attribute_types :
    {Value : Type 0} → List (NodeAttributes Value) → List (Option UaNodeId)
attribute_types [] = []
attribute_types (x ∷ xs) = x.data_type ∷ attribute_types xs

module _ (same : UaNodeId → UaNodeId → Bool) (is_null : UaNodeId → Bool)
    (identifier_numeric : UaNodeId → ℕ) (src : Cache.Source) (fuel : ℕ) {Value : Type 0} where
  -- The rest of subscribe, after the session's.
  unfoldable pub finish_subscribe :
      Cache.Cache
      → Outcome (List (NodeAttributes Value) × FieldMap)
      → Option State × (Cache.Cache × Result (Unit {0}))
  unfolding preload_all attribute_types map_types
  finish_subscribe c stuck = (none, (c, undefined))
  finish_subscribe c (thrown e s) = (some s, (c, throws e))
  finish_subscribe c (returned (attrs, m) s) = (
    some s,
    preload_all same is_null identifier_numeric src fuel (attribute_types attrs ++ map_types m) c,
  )

  unfoldable pub subscribe :
      Subscription.Server
      → UaSession Value
      → ℤ
      → Dto.ParamId
      → State × Cache.Cache
      → Option State × (Cache.Cache × Result (Unit {0}))
  unfolding finish_subscribe Connection.subscribe id_to_ua
  subscribe srv u ns p (s, c) =
      finish_subscribe c (Connection.subscribe same srv u fuel (id_to_ua ns p ∷ []) s)

unfoldable pub unsubscribe :
    (UaNodeId → UaNodeId → Bool)
    → Subscription.Server
    → ℤ
    → Dto.ParamId
    → State
    → Outcome (Unit {0})
unfolding Connection.unsubscribe id_to_ua
unsubscribe same srv ns p s = Connection.unsubscribe same srv (id_to_ua ns p ∷ []) s
