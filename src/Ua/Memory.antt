-- ===== src/Ua/Memory.antt =====
-- An SDK in memory, with the laws of the SDK that src/sasModelProvider/base uses.
use opc_ua_server.Prelude.{ℕ, ◌≡◌, refl, Bool, true, false, Option, none, some, [], Text}
use opc_ua_server.Prelude.Int.{ℤ}
use opc_ua_server.Ua.Sdk.{
  Sdk, Lawful, UaNodeId, LocalizedText, StructureField, StructureDefinition, id_boolean, id_sbyte,
  id_byte, id_int16, id_uint16, id_int32, id_uint32, id_int64, id_uint64, id_float, id_double,
  id_date_time, id_string, id_byte_string, id_localized_text, id_structure, id_null,
}
use opc_ua_server.Ua.Sdk

pub data Value : Type 0 where
  bool_value : Bool → Value
  sbyte_value : ℤ → Value
  byte_value : ℕ → Value
  int16_value : ℤ → Value
  uint16_value : ℕ → Value
  int32_value : ℤ → Value
  uint32_value : ℕ → Value
  int64_value : ℤ → Value
  uint64_value : ℕ → Value
  float_value : ℕ → Value
  double_value : ℕ → Value
  date_time_value : ℤ → Value
  string_value byte_string_value : Option Text → Value
  localized_text_value : LocalizedText → Value
  other : Value

abbrev kind : Value → ℕ
kind (bool_value x) = id_boolean
kind (sbyte_value x) = id_sbyte
kind (byte_value x) = id_byte
kind (int16_value x) = id_int16
kind (uint16_value x) = id_uint16
kind (int32_value x) = id_int32
kind (uint32_value x) = id_uint32
kind (int64_value x) = id_int64
kind (uint64_value x) = id_uint64
kind (float_value x) = id_float
kind (double_value x) = id_double
kind (date_time_value x) = id_date_time
kind (string_value t) = id_string
kind (byte_string_value t) = id_byte_string
kind (localized_text_value t) = id_localized_text
kind other = id_structure

abbrev get_bool : Value → Option Bool
get_bool (bool_value x) = some x
get_bool v = none

abbrev get_sbyte : Value → Option ℤ
get_sbyte (sbyte_value x) = some x
get_sbyte v = none

abbrev get_byte : Value → Option ℕ
get_byte (byte_value x) = some x
get_byte v = none

abbrev get_int16 : Value → Option ℤ
get_int16 (int16_value x) = some x
get_int16 v = none

abbrev get_uint16 : Value → Option ℕ
get_uint16 (uint16_value x) = some x
get_uint16 v = none

abbrev get_int32 : Value → Option ℤ
get_int32 (int32_value x) = some x
get_int32 v = none

abbrev get_uint32 : Value → Option ℕ
get_uint32 (uint32_value x) = some x
get_uint32 v = none

abbrev get_int64 : Value → Option ℤ
get_int64 (int64_value x) = some x
get_int64 v = none

abbrev get_uint64 : Value → Option ℕ
get_uint64 (uint64_value x) = some x
get_uint64 v = none

abbrev get_float : Value → Option ℕ
get_float (float_value x) = some x
get_float v = none

abbrev get_double : Value → Option ℕ
get_double (double_value x) = some x
get_double v = none

abbrev get_date_time : Value → Option ℤ
get_date_time (date_time_value x) = some x
get_date_time v = none

abbrev get_string : Value → Option Text
get_string (string_value t) = t
get_string v = none

abbrev get_byte_string : Value → Option Text
get_byte_string (byte_string_value t) = t
get_byte_string v = none

abbrev get_localized_text : Value → Option LocalizedText
get_localized_text (localized_text_value t) = some t
get_localized_text v = none

abbrev no_text : LocalizedText → Bool
no_text (none, none) = true
no_text (none, some t) = false
no_text (some l, t) = false

abbrev number : UaNodeId → ℕ
number (Sdk.UaNodeId.numeric ns id) = id
number id = 0

abbrev pub memory : Sdk
memory = record {
  UaVariant = Value;
  empty = other;
  type_of = kind;
  is_array = λ v. false;
  array_items = λ v. [];
  variant_array_items = λ v. [];
  data_type = λ v. Sdk.UaNodeId.numeric 0 (kind v);
  identifier_numeric = number;
  set_bool = bool_value;
  to_bool = get_bool;
  set_sbyte = sbyte_value;
  to_sbyte = get_sbyte;
  set_byte = byte_value;
  to_byte = get_byte;
  set_int16 = int16_value;
  to_int16 = get_int16;
  set_uint16 = uint16_value;
  to_uint16 = get_uint16;
  set_int32 = int32_value;
  to_int32 = get_int32;
  set_uint32 = uint32_value;
  to_uint32 = get_uint32;
  set_int64 = int64_value;
  to_int64 = get_int64;
  set_uint64 = uint64_value;
  to_uint64 = get_uint64;
  set_float = float_value;
  to_float = get_float;
  set_double = double_value;
  to_double = get_double;
  set_date_time = date_time_value;
  to_date_time = get_date_time;
  set_string = string_value;
  to_string = get_string;
  set_byte_string = byte_string_value;
  to_byte_string = get_byte_string;
  set_localized_text = localized_text_value;
  to_localized_text = get_localized_text;
  is_null_text = no_text;
  to_node_id = λ v. Sdk.UaNodeId.numeric 0 0;
  to_data_value = λ v. none;
  set_uint16_array = λ ns. other;
  set_int32_array = λ zs. other;
  set_uint32_array = λ ns. other;
  set_string_array = λ ts. other;
  set_localized_text_array = λ ts. other;
  set_extension_objects = λ vs. other;
  set_structure = λ sd fs. other;
  set_union = λ sd f. other;
  get_union = λ sd v. none;
  is_field_set = λ sd v k. false;
  get_field = λ sd v k. none;
}

no_text_lem : (t : LocalizedText) → no_text t ≡ true → t ≡ (none, none)
no_text_lem (none, none) h = refl
no_text_lem (none, some t) h = cc
no_text_lem (some l, t) h = cc

pub memory-Lawful : Lawful memory
memory-Lawful = record {
  bool_kept = λ x. (refl, refl);
  sbyte_kept = λ x. (refl, refl);
  byte_kept = λ x. (refl, refl);
  int16_kept = λ x. (refl, refl);
  uint16_kept = λ x. (refl, refl);
  int32_kept = λ x. (refl, refl);
  uint32_kept = λ x. (refl, refl);
  int64_kept = λ x. (refl, refl);
  uint64_kept = λ x. (refl, refl);
  float_kept = λ x. (refl, refl);
  double_kept = λ x. (refl, refl);
  date_time_kept = λ x. (refl, refl);
  string_kept = λ t h. (refl, refl);
  byte_string_kept = λ t h. (refl, refl);
  localized_text_kept = λ t h k. (refl, refl);
  null_text = no_text_lem;
  is_scalar = λ v h. refl;
  numeric_kept = λ ns id. refl;
}
