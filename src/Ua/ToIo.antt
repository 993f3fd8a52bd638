-- ===== src/Ua/ToIo.antt =====
-- src/sasModelProvider/base/ConverterUa2IO.cpp, from OPC UA values to the data providers' values.
-- A converter of one level takes the converter of the values inside as `convert`; `ua_to_io` ties
-- the knot on fuel, one unit for a level of nesting.
mod Cases
unfoldable pub use Cases.*
use mathlib.Core.Option
use opc_ua_server.Prelude.{
  ℕ, zero, suc, Bool, true, false, ◌||◌, Option, none, some, List, [], ◌∷◌, Text, bytes, c_str, ltb,
  text_eq, ◌==◌, if◌then◌else◌,
}
use opc_ua_server.Prelude.Int.{pos, to_signed, long_mod}
use opc_ua_server.Prelude.Result.{
  Result, ok, throws, ◌>>=◌, no_conversion, missing_field, nested_array, invalid_id_type,
  unsupported_array_type, invalid_status, fmap, too_deep,
}
use opc_ua_server.Io
use opc_ua_server.Ua.Sdk.{
  Sdk, UaNodeId, ua_namespace, StructureField, StructureDefinition, LocalizedText, id_null,
  id_boolean, id_sbyte, id_byte, id_int16, id_uint16, id_int32, id_uint32, id_int64, id_uint64,
  id_float, id_double, id_string, id_date_time, id_byte_string, id_node_id, id_localized_text,
  id_structure, id_union, id_data_value, id_variant, id_enumeration, id_duration, id_utc_time,
}
use opc_ua_server.Ua.Sdk
use opc_ua_server.Ua.ToUa.{Callback, build_in_type}

module _ (sdk : Sdk) where
  open sdk use {
    UaVariant, type_of, is_array, array_items, variant_array_items, data_type, identifier_numeric,
    to_bool, to_sbyte, to_byte, to_int16, to_uint16, to_int32, to_uint32, to_int64, to_uint64,
    to_float, to_double, to_date_time, to_string, to_byte_string, to_localized_text, is_null_text,
    to_node_id, to_data_value, get_union, is_field_set, get_field,
  }

  -- The loops over an array's items, none of which may be an array.
  unfoldable pub convert_items :
      (UaVariant → Result Io.Variant) → List UaVariant → Result Io.Elements
  convert_items convert [] = ok Io.Elements.nil
  convert_items convert (v ∷ vs) =
      let rest = convert_items convert vs in
      if is_array v then throws nested_array else convert v >>= λ w. fmap (Io.Elements.cons w) rest

  -- A value of the type Variant must come as a DataValue.
  unfoldable pub from_variant :
      (UaVariant → UaNodeId → Result Io.Variant) → UaVariant → Result (Option Io.Variant)
  unfolding convert_items
  from_variant convert v =
      if type_of v == id_data_value
      then elim (to_data_value v) [
        | none ↦ ok none
        | some u ↦
            if is_array u
            then fmap (λ es. some (Io.Variant.array Io.TypeCode.t_variant es))
                (convert_items (λ e. convert e (data_type e)) (variant_array_items u))
            else fmap some (convert u (data_type u))
      ]
      else throws no_conversion

  -- The switch on the source type's number.
  unfoldable pub from_number :
      (UaVariant → UaNodeId → Result Io.Variant) → UaVariant → ℕ → Result (Option Io.Variant)
  unfolding from_boolean from_sbyte from_byte from_int16 from_uint16 from_int32 from_uint32
      from_int64 from_uint64 from_float from_double from_string from_date_time from_byte_string
      from_node_id from_localized_text from_variant
  from_number convert v t =
      if t == id_boolean
      then from_boolean sdk v
      else if t == id_sbyte
      then from_sbyte sdk v
      else if t == id_byte
      then from_byte sdk v
      else if t == id_int16
      then from_int16 sdk v
      else if t == id_uint16
      then from_uint16 sdk v
      else if t == id_int32 || t == id_enumeration
      then from_int32 sdk v
      else if t == id_uint32
      then from_uint32 sdk v
      else if t == id_int64
      then from_int64 sdk v
      else if t == id_uint64
      then from_uint64 sdk v
      else if t == id_float
      then from_float sdk v
      else if t == id_double || t == id_duration
      then from_double sdk v
      else if t == id_string
      then from_string sdk v
      else if t == id_date_time || t == id_utc_time
      then from_date_time sdk v
      else if t == id_byte_string
      then from_byte_string sdk v
      else if t == id_node_id
      then from_node_id sdk v
      else if t == id_localized_text
      then from_localized_text sdk v
      else if t == id_null
      then ok (some (Io.Variant.scalar (Io.Scalar.string_value (some (bytes "NULL")))))
      else if t == id_variant
      then from_variant convert v
      else throws no_conversion

  -- convertUaBuildInType2io: outside namespace 0 the result stays null.
  unfoldable pub from_build_in :
      (UaVariant → UaNodeId → Result Io.Variant) → UaVariant → UaNodeId → Result (Option Io.Variant)
  unfolding from_number ua_namespace
  from_build_in convert v src =
      if ua_namespace src == 0 then from_number convert v (identifier_numeric src) else ok none

  -- convertUaExtensionObject2io: the loop over a structure's fields writes to the map.
  unfoldable pub structure_fields :
      (UaVariant → UaNodeId → Result Io.Variant)
      → StructureDefinition
      → UaVariant
      → List StructureField
      → Io.Fields
      → Result Io.Fields
  unfolding insert_field c_str
  structure_fields convert sd v [] acc = ok acc
  structure_fields convert sd v (f ∷ fs) acc =
      if is_field_set sd v (c_str f.name)
      then elim (get_field sd v (c_str f.name)) [
        | none ↦ throws invalid_status
        | some u ↦ convert u f.type_id >>= λ w.
            structure_fields convert sd v fs (insert_field f.name w acc)
      ]
      else (let rest = structure_fields convert sd v fs acc in
          if f.is_optional then rest else throws missing_field)

  unfoldable pub extension_fields :
      (UaVariant → UaNodeId → Result Io.Variant)
      → StructureDefinition
      → UaVariant
      → Result Io.Fields
  unfolding structure_fields
  extension_fields convert sd v =
      if sd.is_union
      then elim (get_union sd v) [
        | none ↦ ok Io.Fields.end
        | some (f, u) ↦ fmap (λ w. Io.Fields.field f.name w Io.Fields.end) (convert u f.type_id)
      ]
      else structure_fields convert sd v sd.children Io.Fields.end

  unfoldable pub from_extension_object :
      (UaVariant → UaNodeId → Result Io.Variant)
      → Callback
      → UaVariant
      → UaNodeId
      → Result Io.Variant
  unfolding extension_fields io_node_id
  from_extension_object convert cb v src = io_node_id src >>= λ id.
      cb.get_structure_definition src >>= λ sd.
      fmap (Io.Variant.structure id) (extension_fields convert sd v)

  -- convertUaArray2io
  unfoldable pub from_array :
      (UaVariant → UaNodeId → Result Io.Variant)
      → Callback
      → UaVariant
      → UaNodeId
      → Result Io.Variant
  unfolding convert_items io_array_type ua_namespace
  from_array convert cb v src = build_in_type cb src >>= λ b.
      io_array_type (ua_namespace b) (identifier_numeric b) >>= λ t.
      fmap (Io.Variant.array t) (convert_items (λ e. convert e src) (array_items v))

  present : Option Io.Variant → Result Io.Variant
  present none = throws no_conversion
  present (some v) = ok v

  is_extension : ℕ → Bool
  is_extension t = t == id_structure || t == id_union

  -- convertUa2io, one level.
  unfoldable pub convert_level :
      (UaVariant → UaNodeId → Result Io.Variant)
      → Callback
      → UaVariant
      → UaNodeId
      → Result Io.Variant
  unfolding from_array from_extension_object from_build_in present is_extension
  convert_level convert cb v src =
      if is_array v
      then from_array convert cb v src
      else build_in_type cb src >>= λ b.
          if is_extension (identifier_numeric b)
          then from_extension_object convert cb v src
          else (from_build_in convert v b >>= present)

  unfoldable pub ua_to_io : ℕ → Callback → UaVariant → UaNodeId → Result Io.Variant
  unfolding convert_level
  ua_to_io zero cb v src = throws too_deep
  ua_to_io (suc fuel) cb v src = convert_level (λ u t. ua_to_io fuel cb u t) cb v src
