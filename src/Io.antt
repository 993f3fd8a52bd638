-- ===== src/Io.antt =====
-- include/ioDataProvider and src/ioDataProvider: the values that the server and its data providers
-- exchange. Classes are data types by value; a pointer that may be null is an `Option`. A float or
-- double is its bit pattern: the code only moves it.
pub mod Copy
mod Tests
use opc_ua_server.Prelude.{
  ℕ, Bool, true, false, ◌&&◌, Option, none, some, ◌++◌, Text, bytes, text_eq, c_str, show_int,
}
use opc_ua_server.Prelude.Int.{ℤ, int_eq}
use opc_ua_server.Common.Exception.{Exception}

-- NodeId.cpp: the namespace index, and a number or a text.
pub data NodeId : Type 0 where
  numeric : ℤ → ℤ → NodeId
  string : ℤ → Text → NodeId

unfoldable pub equals : NodeId → NodeId → Bool
equals (numeric n i) (numeric m j) = int_eq n m && int_eq i j
equals (numeric n i) (string m t) = false
equals (string n s) (numeric m j) = false
equals (string n s) (string m t) = int_eq n m && text_eq s t

unfoldable pub node_id_to_string : NodeId → Text
node_id_to_string (numeric ns i) =
    bytes "IODataProviderNamespace::NodeId[type="
    ++ (bytes "numeric,ns=" ++ (show_int ns ++ (bytes ",value=" ++ (show_int i ++ bytes "]"))))
node_id_to_string (string ns s) =
    bytes "IODataProviderNamespace::NodeId[type="
    ++ (bytes "string,ns=" ++ (show_int ns ++ (bytes ",value=" ++ (c_str s ++ bytes "]"))))

-- Scalar.cpp: the tagged union. A byte string of null has no length.
pub data Scalar : Type 0 where
  bool : Bool → Scalar
  schar : ℤ → Scalar
  char : ℕ → Scalar
  int : ℤ → Scalar
  uint : ℕ → Scalar
  long : ℤ → Scalar
  ulong : ℕ → Scalar
  llong : ℤ → Scalar
  ullong : ℕ → Scalar
  float : ℕ → Scalar
  double : ℕ → Scalar
  string_value : Option Text → Scalar
  byte_string : Option Text → Scalar
  -- locale, text
  localized_text : Option Text → Option Text → Scalar

-- The values of `Scalar::Type` and `Variant::Type`, which the code mixes in an `int`, and any other.
pub data TypeCode : Type 0 where
  t_bool t_schar t_char t_int t_uint t_long t_ulong t_llong t_ullong t_float t_double : TypeCode
  t_string t_byte_string t_localized_text t_variant : TypeCode
  t_array t_node_id t_structure t_node_properties t_event_data : TypeCode
  t_other : ℕ → TypeCode

-- NodeProperties.h: how the values of a node are handled.
pub data ValueHandling : Type 0 where
  unhandled sync async : ValueHandling

-- The subclasses of `Variant`, the vectors of array elements, the maps of structure fields in key
-- order, and the vectors of `NodeData` in an event.
mutual
  pub data Variant : Type 0 where
    scalar : Scalar → Variant
    null_array : TypeCode → Variant
    array : TypeCode → Elements → Variant
    structure : NodeId → Fields → Variant
    node_id : NodeId → Variant
    node_properties : ValueHandling → Variant
    -- source node, message, severity, fields
    event_data : NodeId → Text → ℤ → EventFields → Variant

  pub data Elements : Type 0 where
    nil : Elements
    cons : Variant → Elements → Elements

  pub data Fields : Type 0 where
    end : Fields
    field : Text → Variant → Fields → Fields

  pub data EventFields : Type 0 where
    no_fields : EventFields
    event_field : NodeId → Payload → Option Exception → EventFields → EventFields

  pub data Payload : Type 0 where
    null : Payload
    value : Variant → Payload

unfoldable pub scalar_type : Scalar → TypeCode
scalar_type (bool b) = t_bool
scalar_type (schar z) = t_schar
scalar_type (char c) = t_char
scalar_type (int z) = t_int
scalar_type (uint n) = t_uint
scalar_type (long z) = t_long
scalar_type (ulong n) = t_ulong
scalar_type (llong z) = t_llong
scalar_type (ullong n) = t_ullong
scalar_type (float f) = t_float
scalar_type (double d) = t_double
scalar_type (string_value s) = t_string
scalar_type (byte_string s) = t_byte_string
scalar_type (localized_text l t) = t_localized_text

-- NodeData.cpp: a node with its value or exception.
pub record NodeData : Type 0 where
  pub node : NodeId
  pub payload : Option Variant
  pub exception : Option Exception
