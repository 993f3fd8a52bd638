-- ===== src/Ua/Sdk.antt =====
-- What src/sasModelProvider/base uses of the OPC UA SDK, which is not part of the repository.
use opc_ua_server.Prelude.{ℕ, ◌<◌, ◌≡◌, ◌≢◌, Bool, true, false, Option, none, some, List, [], Text}
use opc_ua_server.Prelude.Int.{ℤ}

-- A UaNodeId by its identifier type: the namespace index, and a number or text where there is one.
pub data UaNodeId : Type 0 where
  numeric : ℕ → ℕ → UaNodeId
  string : ℕ → Text → UaNodeId
  guid opaque : ℕ → UaNodeId

unfoldable pub ua_namespace : UaNodeId → ℕ
ua_namespace (numeric ns id) = ns
ua_namespace (string ns s) = ns
ua_namespace (guid ns) = ns
ua_namespace (opaque ns) = ns

-- The standard's numbers of the data types (OpcUaType_… and OpcUaId_…) in namespace 0.
abbrev pub id_null : ℕ
id_null = 0

abbrev pub id_boolean : ℕ
id_boolean = 1

abbrev pub id_sbyte : ℕ
id_sbyte = 2

abbrev pub id_byte : ℕ
id_byte = 3

abbrev pub id_int16 : ℕ
id_int16 = 4

abbrev pub id_uint16 : ℕ
id_uint16 = 5

abbrev pub id_int32 : ℕ
id_int32 = 6

abbrev pub id_uint32 : ℕ
id_uint32 = 7

abbrev pub id_int64 : ℕ
id_int64 = 8

abbrev pub id_uint64 : ℕ
id_uint64 = 9

abbrev pub id_float : ℕ
id_float = 10

abbrev pub id_double : ℕ
id_double = 11

abbrev pub id_string : ℕ
id_string = 12

abbrev pub id_date_time : ℕ
id_date_time = 13

abbrev pub id_byte_string : ℕ
id_byte_string = 15

abbrev pub id_node_id : ℕ
id_node_id = 17

abbrev pub id_localized_text : ℕ
id_localized_text = 21

abbrev pub id_structure : ℕ
id_structure = 22

abbrev pub id_data_value : ℕ
id_data_value = 23

abbrev pub id_variant : ℕ
id_variant = 24

abbrev pub id_enumeration : ℕ
id_enumeration = 29

abbrev pub id_duration : ℕ
id_duration = 290

abbrev pub id_utc_time : ℕ
id_utc_time = 294

abbrev pub id_union : ℕ
id_union = 12756

-- What the code reads of a UaStructureField and a UaStructureDefinition.
pub record StructureField : Type 0 where
  pub name : Text
  pub type_id : UaNodeId
  pub is_optional : Bool

pub record StructureDefinition : Type 0 where
  pub is_union : Bool
  pub children : List StructureField

-- A UaLocalizedText's locale and text, null or not.
abbrev pub LocalizedText : Type 0
LocalizedText = Option Text × Option Text

-- The operations on UaVariant. A `set_…` is a fresh variant after the setter, a `to_…` the getter,
-- with `none` for a status that is not good; a text or byte string may be null besides.
pub record Sdk : Type 1 where
  pub UaVariant : Type 0
  pub empty : UaVariant
  pub type_of : UaVariant → ℕ
  pub is_array : UaVariant → Bool
  pub array_items : UaVariant → List UaVariant
  pub variant_array_items : UaVariant → List UaVariant
  pub data_type : UaVariant → UaNodeId
  pub identifier_numeric : UaNodeId → ℕ
  pub set_bool : Bool → UaVariant
  pub to_bool : UaVariant → Option Bool
  pub set_sbyte : ℤ → UaVariant
  pub to_sbyte : UaVariant → Option ℤ
  pub set_byte : ℕ → UaVariant
  pub to_byte : UaVariant → Option ℕ
  pub set_int16 : ℤ → UaVariant
  pub to_int16 : UaVariant → Option ℤ
  pub set_uint16 : ℕ → UaVariant
  pub to_uint16 : UaVariant → Option ℕ
  pub set_int32 : ℤ → UaVariant
  pub to_int32 : UaVariant → Option ℤ
  pub set_uint32 : ℕ → UaVariant
  pub to_uint32 : UaVariant → Option ℕ
  pub set_int64 : ℤ → UaVariant
  pub to_int64 : UaVariant → Option ℤ
  pub set_uint64 : ℕ → UaVariant
  pub to_uint64 : UaVariant → Option ℕ
  pub set_float : ℕ → UaVariant
  pub to_float : UaVariant → Option ℕ
  pub set_double : ℕ → UaVariant
  pub to_double : UaVariant → Option ℕ
  pub set_date_time : ℤ → UaVariant
  pub to_date_time : UaVariant → Option ℤ
  pub set_string : Option Text → UaVariant
  pub to_string : UaVariant → Option Text
  pub set_byte_string : Option Text → UaVariant
  pub to_byte_string : UaVariant → Option Text
  pub set_localized_text : LocalizedText → UaVariant
  pub to_localized_text : UaVariant → Option LocalizedText
  pub is_null_text : LocalizedText → Bool
  pub to_node_id : UaVariant → UaNodeId
  pub to_data_value : UaVariant → Option UaVariant
  pub set_uint16_array : List ℕ → UaVariant
  pub set_int32_array : List ℤ → UaVariant
  pub set_uint32_array : List ℕ → UaVariant
  pub set_string_array : List (Option Text) → UaVariant
  pub set_localized_text_array : List LocalizedText → UaVariant
  pub set_extension_objects : List UaVariant → UaVariant
  -- UaGenericStructureValue and UaGenericUnionValue, written and read.
  pub set_structure : StructureDefinition → List (Text × UaVariant) → UaVariant
  pub set_union : StructureDefinition → Option (Text × UaVariant) → UaVariant
  pub get_union : StructureDefinition → UaVariant → Option (StructureField × UaVariant)
  pub is_field_set : StructureDefinition → UaVariant → Text → Bool
  pub get_field : StructureDefinition → UaVariant → Text → Option UaVariant

-- The documented behaviour that the theorems rest on: a variant keeps what its setter wrote. An
-- empty text or byte string may become null.
pub record Lawful (s : Sdk) : Type 0 where
  pub bool_kept :
      (b : Bool) → (s.type_of (s.set_bool b) ≡ id_boolean) × (s.to_bool (s.set_bool b) ≡ some b)
  pub sbyte_kept :
      (z : ℤ) → (s.type_of (s.set_sbyte z) ≡ id_sbyte) × (s.to_sbyte (s.set_sbyte z) ≡ some z)
  pub byte_kept :
      (n : ℕ) → (s.type_of (s.set_byte n) ≡ id_byte) × (s.to_byte (s.set_byte n) ≡ some n)
  pub int16_kept :
      (z : ℤ) → (s.type_of (s.set_int16 z) ≡ id_int16) × (s.to_int16 (s.set_int16 z) ≡ some z)
  pub uint16_kept :
      (n : ℕ) → (s.type_of (s.set_uint16 n) ≡ id_uint16) × (s.to_uint16 (s.set_uint16 n) ≡ some n)
  pub int32_kept :
      (z : ℤ) → (s.type_of (s.set_int32 z) ≡ id_int32) × (s.to_int32 (s.set_int32 z) ≡ some z)
  pub uint32_kept :
      (n : ℕ) → (s.type_of (s.set_uint32 n) ≡ id_uint32) × (s.to_uint32 (s.set_uint32 n) ≡ some n)
  pub int64_kept :
      (z : ℤ) → (s.type_of (s.set_int64 z) ≡ id_int64) × (s.to_int64 (s.set_int64 z) ≡ some z)
  pub uint64_kept :
      (n : ℕ) → (s.type_of (s.set_uint64 n) ≡ id_uint64) × (s.to_uint64 (s.set_uint64 n) ≡ some n)
  pub float_kept :
      (f : ℕ) → (s.type_of (s.set_float f) ≡ id_float) × (s.to_float (s.set_float f) ≡ some f)
  pub double_kept :
      (d : ℕ) → (s.type_of (s.set_double d) ≡ id_double) × (s.to_double (s.set_double d) ≡ some d)
  pub date_time_kept :
      (z : ℤ)
      → (s.type_of (s.set_date_time z) ≡ id_date_time)
        × (s.to_date_time (s.set_date_time z) ≡ some z)
  pub string_kept :
      (t : Option Text)
      → t ≢ some []
      → (s.type_of (s.set_string t) ≡ id_string) × (s.to_string (s.set_string t) ≡ t)
  pub byte_string_kept :
      (t : Option Text)
      → t ≢ some []
      → (s.type_of (s.set_byte_string t) ≡ id_byte_string)
        × (s.to_byte_string (s.set_byte_string t) ≡ t)
  pub localized_text_kept :
      (t : LocalizedText)
      → t.0 ≢ some []
      → t.1 ≢ some []
      → (s.type_of (s.set_localized_text t) ≡ id_localized_text)
        × (s.to_localized_text (s.set_localized_text t) ≡ some t)
  pub null_text : (t : LocalizedText) → s.is_null_text t ≡ true → t ≡ (none, none)
  pub is_scalar : (v : s.UaVariant) → s.type_of v < id_structure → s.is_array v ≡ false
  pub numeric_kept : (ns id : ℕ) → s.identifier_numeric (numeric ns id) ≡ id
