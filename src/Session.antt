-- ===== src/Session.antt =====
-- src/binaryServer/HaSession.cpp: a client's session at a remote server. The answers of the SDK's session
-- are a parameter; `none` is a status that is not good. The mutex makes each method one step. A vector
-- for results is empty when a method takes it, as in each of the calls.
pub mod Reading
pub mod Describing
pub mod Reads
pub mod Fields
pub mod Methods
pub mod Connection
pub mod Tests
use opc_ua_server.Prelude.{ℕ, Bool, false, Option, none, some, List, Text}
use opc_ua_server.Prelude.Result.{Result, throws, closed_session}
use opc_ua_server.Ua.Sdk.{UaNodeId}

-- The attributes that are read, by their ids.
pub data Attribute : Type 0 where
  node_class value data_type : Attribute

-- What the code reads of a reference description; the type of the reference by its number.
pub record Reference : Type 0 where
  pub node_id : UaNodeId
  pub browse_name : Text
  pub reference_type : ℕ
  pub is_forward : Bool

-- The status of a call of a method and the method's own, with an error code unless they are good.
pub data CallResult (Value : Type 0) : Type 0 where
  refused : ℕ → CallResult Value
  failed : ℕ → CallResult Value
  answered : List Value → CallResult Value

pub record UaSession (Value : Type 0) : Type 0 where
  pub read : List (UaNodeId × Attribute) → Option (List (Option Value))
  pub write : List (UaNodeId × Value) → Option (List Bool)
  pub browse : UaNodeId → Option (List Reference)
  pub call : UaNodeId → UaNodeId → List Value → CallResult Value
  pub get_method_arguments : UaNodeId → Option (List UaNodeId × List UaNodeId)
  -- UaNodeId: `isNull`
  pub is_null : UaNodeId → Bool
  -- UaVariant: `toInt32`, `toNodeId` into a new node id, and `setByte(1)`
  pub to_int32 : Value → ℕ
  pub to_node_id : Value → UaNodeId
  pub byte_one : Value

-- OpcUa_NodeClass_ObjectType, OpcUaType_Byte and OpcUaId_HasSubtype.
abbrev pub object_type_class : ℕ
object_type_class = 8

abbrev pub byte_type : UaNodeId
byte_type = UaNodeId.numeric 0 3

abbrev pub has_subtype : ℕ
has_subtype = 45

-- Null is `none`; of an exception the code uses that there is one.
pub record NodeAttributes (Value : Type 0) : Type 0 where
  pub node_id : UaNodeId
  pub value : Option Value
  pub data_type : Option UaNodeId
  pub node_class : Option ℕ
  pub has_exception : Bool

module _ {Value : Type 0} where
  -- The methods but the unsubscribing ones fail without a session.
  unfoldable pub with_session {ℓ} :
      {A : Type ℓ} → Option (UaSession Value) → (UaSession Value → Result A) → Result A
  with_session none f = throws closed_session
  with_session (some s) f = f s

  -- The constructor of NodeAttributes.
  unfoldable pub create : UaNodeId → NodeAttributes Value
  create n = record {
    node_id = n;
    value = none;
    data_type = none;
    node_class = none;
    has_exception = false;
  }
