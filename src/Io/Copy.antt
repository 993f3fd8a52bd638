-- ===== src/Io/Copy.antt =====
-- The copy constructors of src/ioDataProvider: deep copies, which the holder owns.
use opc_ua_server.Prelude.{◌≡◌, refl, ap, ap₂, Option, none, some, Text}
use opc_ua_server.Common.Exception.{Exception}
use opc_ua_server.Common.Exception as Exception
use opc_ua_server.Io.{
  NodeId, numeric, string, Scalar, bool, schar, char, int, uint, long, ulong, llong, ullong, float,
  double, string_value, byte_string, localized_text, Variant, scalar, null_array, array, structure,
  node_id, node_properties, event_data, Elements, nil, cons, Fields, end, field, EventFields,
  no_fields, event_field, Payload, null, value,
}

copy_text : Option Text → Option Text
copy_text none = none
copy_text (some s) = some s

copy_exception : Option Exception → Option Exception
copy_exception none = none
copy_exception (some e) = some (Exception.copy e)

copy_node_id : NodeId → NodeId
copy_node_id (numeric ns i) = numeric ns i
copy_node_id (string ns s) = string ns s

copy_scalar : Scalar → Scalar
unfolding copy_text
copy_scalar (bool b) = bool b
copy_scalar (schar z) = schar z
copy_scalar (char c) = char c
copy_scalar (int z) = int z
copy_scalar (uint n) = uint n
copy_scalar (long z) = long z
copy_scalar (ulong n) = ulong n
copy_scalar (llong z) = llong z
copy_scalar (ullong n) = ullong n
copy_scalar (float f) = float f
copy_scalar (double d) = double d
copy_scalar (string_value s) = string_value (copy_text s)
copy_scalar (byte_string s) = byte_string (copy_text s)
copy_scalar (localized_text l t) = localized_text (copy_text l) (copy_text t)

mutual
  pub copy : Variant → Variant
  copy (scalar s) = scalar (copy_scalar s)
  copy (null_array t) = null_array t
  copy (array t es) = array t (copy_elements es)
  copy (structure id fs) = structure (copy_node_id id) (copy_fields fs)
  copy (node_id id) = node_id (copy_node_id id)
  copy (node_properties h) = node_properties h
  copy (event_data id m s fs) = event_data (copy_node_id id) m s (copy_event_fields fs)

  copy_elements : Elements → Elements
  copy_elements nil = nil
  copy_elements (cons v es) = cons (copy v) (copy_elements es)

  copy_fields : Fields → Fields
  copy_fields end = end
  copy_fields (field k v fs) = field k (copy v) (copy_fields fs)

  copy_event_fields : EventFields → EventFields
  copy_event_fields no_fields = no_fields
  copy_event_fields (event_field id p e fs) =
      event_field (copy_node_id id) (copy_payload p) (copy_exception e) (copy_event_fields fs)

  copy_payload : Payload → Payload
  copy_payload null = null
  copy_payload (value v) = value (copy v)

exception_copy-eq : (e : Exception) → Exception.copy e ≡ e
exception_copy-eq e = Exception.Chain.copy-eq e

copy_text-eq : (s : Option Text) → copy_text s ≡ s
unfolding copy_text
copy_text-eq none = refl
copy_text-eq (some s) = refl

copy_exception-eq : (e : Option Exception) → copy_exception e ≡ e
unfolding copy_exception
copy_exception-eq none = refl
copy_exception-eq (some e) = ap some (exception_copy-eq e)

copy_node_id-eq : (id : NodeId) → copy_node_id id ≡ id
unfolding copy_node_id
copy_node_id-eq (numeric ns i) = refl
copy_node_id-eq (string ns s) = refl

copy_scalar-eq : (s : Scalar) → copy_scalar s ≡ s
unfolding copy_scalar
copy_scalar-eq (string_value s) = ap string_value (copy_text-eq s)
copy_scalar-eq (byte_string s) = ap byte_string (copy_text-eq s)
copy_scalar-eq (localized_text l t) = ap₂ localized_text (copy_text-eq l) (copy_text-eq t)
copy_scalar-eq other = refl

mutual
  unfolding copy

  copy_variant-eq : (v : Variant) → copy v ≡ v
  copy_variant-eq (scalar s) = ap scalar (copy_scalar-eq s)
  copy_variant-eq (null_array t) = refl
  copy_variant-eq (array t es) = ap (array t) (copy_elements-eq es)
  copy_variant-eq (structure id fs) = ap₂ structure (copy_node_id-eq id) (copy_fields-eq fs)
  copy_variant-eq (node_id id) = ap node_id (copy_node_id-eq id)
  copy_variant-eq (node_properties h) = refl
  copy_variant-eq (event_data id m s fs) = cc (copy_node_id-eq id, copy_event_fields-eq fs)

  copy_elements-eq : (es : Elements) → copy_elements es ≡ es
  copy_elements-eq nil = refl
  copy_elements-eq (cons v es) = ap₂ cons (copy_variant-eq v) (copy_elements-eq es)

  copy_fields-eq : (fs : Fields) → copy_fields fs ≡ fs
  copy_fields-eq end = refl
  copy_fields-eq (field k v fs) = ap₂ (field k) (copy_variant-eq v) (copy_fields-eq fs)

  copy_event_fields-eq : (fs : EventFields) → copy_event_fields fs ≡ fs
  copy_event_fields-eq no_fields = refl
  copy_event_fields-eq (event_field id p e fs) =
      cc (copy_node_id-eq id, copy_payload-eq p, copy_exception-eq e, copy_event_fields-eq fs)

  copy_payload-eq : (p : Payload) → copy_payload p ≡ p
  copy_payload-eq null = refl
  copy_payload-eq (value v) = ap value (copy_variant-eq v)

-- The copy of a value, with all that it holds, has the content of the original.
pub copy-eq : (v : Variant) → copy v ≡ v
copy-eq v = copy_variant-eq v
