-- ===== src/Provider.antt =====
-- src/provider/binary/jDataProvider/JDataProvider.cpp: the data provider for Java. The calls of the virtual
-- machine and of src/common/native2J are parameters; a Java object is of a type of its own. The
-- conversion of a node id to a ParamId throws nothing, so that a subscription has no exceptions.
pub mod Model
pub mod Properties
pub mod Subscriptions
pub mod Calls
mod Tests
use opc_ua_server.Prelude.{
  ℕ, suc, ◌+◌, ◌%◌, ◌^◌, Bool, true, false, Option, none, some, List, [], ◌∷◌, ◌++◌, if◌then◌else◌,
  Text, c_str, show_nat, length,
}
use opc_ua_server.Prelude.Int.{ℤ, pos, to_unsigned}
use opc_ua_server.Prelude.Result.{Result, ok, throws, undefined, ◌>>=◌, fmap, bad_answer}
use opc_ua_server.Io
use opc_ua_server.Binary.Dto
use opc_ua_server.Binary.ParamId
use opc_ua_server.Binary.Converter.{node_id_of_param_id, param_id_of_node_id, bin_to_io, io_to_bin}
use opc_ua_server.Ua.Sdk.{UaNodeId}
use opc_ua_server.Client.Model.{Fields}

-- Whether the class of the provider is found, its methods, and the conversions of objects; getVariant takes the
-- text of a type. `update_model` and `get_param_id` are those of Provider.Model.
pub record Environment : Type 1 where
  pub Object : Type 0
  pub Callback : Type 0
  pub has_class : Bool
  pub java_read : ℤ → Text → Option Object
  pub get_variant : Object → Text → Result Dto.Variant
  pub update_model : UaNodeId → Fields → Fields × Result (Unit {0})
  pub get_param_id : UaNodeId → Text
  pub values_changed : Callback → Io.NodeId → Option Io.Variant → Result (Unit {0})

-- A ParamId as a node id of the SDK.
unfoldable pub get_ua_node : Dto.ParamId → UaNodeId
get_ua_node (Dto.ParamId.string ns s) = UaNodeId.string (to_unsigned 65536 ns) (c_str s)
get_ua_node (Dto.ParamId.numeric ns i) =
    UaNodeId.numeric (to_unsigned 65536 ns) (to_unsigned 4294967296 (pos i))

-- The text for a node that `read` and `write` give to Java.
unfoldable pub node_text : Dto.ParamId → Text
unfolding ParamId.to_string
node_text (Dto.ParamId.string ns s) = c_str s
node_text (Dto.ParamId.numeric ns i) = ParamId.to_string (Dto.ParamId.numeric ns i)

-- The text for a node that `subscribe` and `unsubscribe` give to Java.
unfoldable pub subscription_text : Dto.ParamId → Text
subscription_text (Dto.ParamId.string ns s) = c_str s
subscription_text (Dto.ParamId.numeric ns i) = show_nat i

unfoldable pub namespace_of : Dto.ParamId → ℤ
namespace_of (Dto.ParamId.string ns s) = ns
namespace_of (Dto.ParamId.numeric ns i) = ns

-- What is returned for a node: its value, which may be null, or an exception.
pub record Answer : Type 0 where
  pub node : Io.NodeId
  pub payload : Option Io.Variant
  pub has_exception : Bool

-- The exception that is kept for a later throw is a Boolean: there is one.
pub record Written : Type 0 where
  pub sent : List (ℤ × (Text × Dto.Variant))
  pub counter : ℕ
  pub has_exception : Bool

module _ (env : Environment) where
  pub record State : Type 0 where
    pub namespace_index : ℤ
    pub message_id_counter : ℕ
    pub callbacks : List (Io.NodeId × env.Callback)
    pub fields : Fields

  -- A null object and a type without a text give a null value.
  unfoldable pub object_value : ℤ → Text → Option env.Object → Result (Option Io.Variant)
  unfolding bin_to_io
  object_value ns t none = ok none
  object_value ns [] (some x) = ok none
  object_value ns (c ∷ t) (some x) = env.get_variant x (c ∷ t) >>= λ v. fmap some (bin_to_io v ns)

  unfoldable pub answer_of : Io.NodeId → Result (Option Io.Variant) → Result Answer
  answer_of n undefined = undefined
  answer_of n (throws e) = ok record { node = n; payload = none; has_exception = true }
  answer_of n (ok w) = ok record { node = n; payload = w; has_exception = false }

  -- The `try` block of read for a ParamId. The fields of the model stay also when it throws.
  unfoldable pub read_param : ℤ → Dto.ParamId → Fields → Fields × Result (Option Io.Variant)
  unfolding get_ua_node object_value node_text
  read_param ns p m =
      let (fields, updated) = env.update_model (get_ua_node p) m in
      (
        fields,
        updated >>= λ u.
            object_value ns (env.get_param_id (get_ua_node p)) (env.java_read ns (node_text p)),
      )

  unfoldable pub read_node : ℤ → Io.NodeId → Fields → Fields × Result Answer
  unfolding param_id_of_node_id read_param answer_of
  read_node ns n m =
      let (fields, r) = read_param ns (param_id_of_node_id n) m in (fields, answer_of n r)

  unfoldable pub read_nodes : ℤ → List Io.NodeId → Fields → Fields × Result (List Answer)
  unfolding read_node
  read_nodes ns [] m = (m, ok [])
  read_nodes ns (n ∷ nodes) m =
      let (fields, answer) = read_node ns n m in
      let (rest, answers) = read_nodes ns nodes fields in
      (rest, answer >>= λ a. fmap (λ others. a ∷ others) answers)

  -- A message id for the call, and one after each node, on an `unsigned long`.
  unfoldable pub take_ids : ℕ → State → State
  take_ids n s = record s { message_id_counter = (s.message_id_counter + suc n) % 2 ^ 32 }

  unfoldable pub read : List Io.NodeId → State → State × Result (List Answer)
  unfolding read_nodes take_ids
  read nodes s =
      let (fields, answers) = read_nodes s.namespace_index nodes s.fields in
      (record (take_ids (length nodes) s) { fields = fields }, answers)

  abbrev with_sent : ℤ × (Text × Dto.Variant) → Written → Written
  with_sent x w = record w { sent = x ∷ w.sent }

  -- The loop of write with the exception so far and the next message id. A null value is an exception, but a
  -- second exception is not made: the null pointer is dereferenced. Without the class the method returns.
  unfoldable pub write_nodes : List (Io.NodeId × Option Io.Variant) → Bool → ℕ → Result Written
  unfolding param_id_of_node_id node_text namespace_of io_to_bin
  write_nodes [] failed i = ok record { sent = []; counter = i; has_exception = failed }
  write_nodes ((n, none) ∷ pairs) failed i =
      let rest = write_nodes pairs true i in
      if failed
      then (if env.has_class
          then undefined
          else ok record { sent = []; counter = i; has_exception = false })
      else rest
  write_nodes ((n, some w) ∷ pairs) failed i =
      let sent_rest = write_nodes pairs failed (suc i % 2 ^ 32) in
      let failed_rest = write_nodes pairs true i in
      let p = param_id_of_node_id n in
      if env.has_class
      then (elim (io_to_bin w) [
        | undefined ↦ undefined
        | throws e ↦ failed_rest
        | ok v ↦ fmap (with_sent (namespace_of p, (node_text p, v))) sent_rest
      ])
      else ok record { sent = []; counter = i; has_exception = false }

  unfoldable pub write : List (Io.NodeId × Option Io.Variant) → State → Result Written
  unfolding write_nodes
  write pairs s = write_nodes pairs false (suc s.message_id_counter % 2 ^ 32)

  unfoldable pub add_callbacks :
      List Io.NodeId
      → env.Callback
      → List (Io.NodeId × env.Callback)
      → List (Io.NodeId × env.Callback)
  add_callbacks [] c cs = cs
  add_callbacks (n ∷ nodes) c cs = add_callbacks nodes c (cs ++ (n, c) ∷ [])

  -- The values are read in the end.
  unfoldable pub subscribe : List Io.NodeId → env.Callback → State → State × Result (List Answer)
  unfolding add_callbacks take_ids read
  subscribe nodes c s =
      read nodes
        (record (take_ids (length nodes) s) { callbacks = add_callbacks nodes c s.callbacks })

  -- The first callback of the node, whoever subscribed.
  unfoldable pub remove_first :
      Io.NodeId → List (Io.NodeId × env.Callback) → List (Io.NodeId × env.Callback)
  unfolding Io.equals
  remove_first n [] = []
  remove_first n ((k, c) ∷ cs) =
      let rest = remove_first n cs in if Io.equals n k then cs else (k, c) ∷ rest

  -- In reverse order.
  unfoldable pub remove_callbacks :
      List Io.NodeId → List (Io.NodeId × env.Callback) → List (Io.NodeId × env.Callback)
  unfolding remove_first
  remove_callbacks [] cs = cs
  remove_callbacks (n ∷ nodes) cs = remove_first n (remove_callbacks nodes cs)

  unfoldable pub unsubscribe : List Io.NodeId → State → State
  unfolding remove_callbacks take_ids
  unsubscribe nodes s = record (take_ids (length nodes) s) {
    callbacks = remove_callbacks nodes s.callbacks;
  }

  -- The callbacks of the node are told one after the other.
  unfoldable pub tell :
      Io.NodeId → Option Io.Variant → List (Io.NodeId × env.Callback) → Result (Unit {0})
  unfolding Io.equals
  tell n w [] = ok tt
  tell n w ((k, c) ∷ cs) =
      let rest = tell n w cs in
      if Io.equals k n then (env.values_changed c n w >>= λ u. rest) else rest

  -- A value from Java.
  unfoldable pub notification : ℤ → Dto.ParamId → env.Object → State → State × Result (Unit {0})
  unfolding get_ua_node node_id_of_param_id bin_to_io tell
  notification ns p x s =
      let (fields, updated) = env.update_model (get_ua_node p) s.fields in
      (
        record s { fields = fields },
        do
          u ← updated
          v ← env.get_variant x (env.get_param_id (get_ua_node p))
          w ← bin_to_io v ns
          tell (node_id_of_param_id p ns) (some w) s.callbacks,
      )
