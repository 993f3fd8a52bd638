-- ===== src/Ua/ToUa.antt =====
-- src/sasModelProvider/base/ConverterUa2IO.cpp, from the data providers' values to OPC UA values.
mod Elements
mod Numbers
pub mod Guards
unfoldable pub use Elements.*
unfoldable pub use Numbers.*
use Prim.Native.Nat.{bit_xor}
use mathlib.Core.Option
use opc_ua_server.Prelude.{
  ℕ, ◌+◌, ◌%◌, ◌^◌, Bool, true, false, not, ◌&&◌, ◌||◌, Option, none, some, List, [], ◌∷◌, Text,
  bytes, c_str, text_eq, ltb, ◌==◌, if◌then◌else◌, length,
}
use opc_ua_server.Prelude.Int.{ℤ, pos, negsuc, to_signed, to_unsigned, long_mod, short_mod, int_mod}
use opc_ua_server.Prelude.Result.{
  Result, ok, throws, undefined, ◌>>=◌, no_conversion, out_of_range, no_base_type, missing_field,
  too_many_fields, null_array, fmap,
}
use opc_ua_server.Io
use opc_ua_server.Ua.Sdk.{
  Sdk, UaNodeId, ua_namespace, StructureField, StructureDefinition, LocalizedText, id_boolean,
  id_sbyte, id_byte, id_int16, id_uint16, id_int32, id_uint32, id_int64, id_uint64, id_float,
  id_double, id_string, id_date_time, id_byte_string, id_localized_text, id_enumeration,
  id_duration, id_utc_time,
}
use opc_ua_server.Ua.Sdk

module _ (sdk : Sdk) where
  open sdk use {
    UaVariant, identifier_numeric, set_bool, set_sbyte, set_byte, set_int16, set_uint16, set_int32,
    set_uint32, set_int64, set_uint64, set_float, set_double, set_date_time, set_string,
    set_byte_string, set_localized_text, set_uint16_array, set_int32_array, set_uint32_array,
    set_string_array, set_localized_text_array, set_extension_objects, set_structure, set_union,
  }

  -- convertIoArray2ua… for the element types, and its switch on the array's type and the number of
  -- the destination's build-in type.
  unfoldable pub ua_long_array : Io.Elements → ℕ → Result UaVariant
  unfolding longs_of map_list
  ua_long_array es t =
      if t == id_int32 || t == id_enumeration
      then fmap (λ zs. set_int32_array (map_list (to_signed int_mod) zs)) (longs_of es)
      else if t == id_uint16
      then fmap (λ zs. set_uint16_array (map_list (to_unsigned short_mod) zs)) (longs_of es)
      else throws no_conversion

  unfoldable pub ua_string_array : Io.Elements → ℕ → Result UaVariant
  unfolding texts_of map_list
  ua_string_array es t =
      if t == id_string
      then fmap (λ ts. set_string_array (map_list some ts)) (texts_of es)
      else if t == id_localized_text
      then fmap (λ ts. set_localized_text_array (map_list (λ u. (some english, some u)) ts))
          (texts_of es)
      else throws no_conversion

  unfoldable pub ua_array : Io.TypeCode → Io.Elements → ℕ → Result UaVariant
  unfolding ua_long_array ua_string_array ulongs_of llongs_of localized_texts_of
  ua_array Io.TypeCode.t_long es t = ua_long_array es t
  ua_array Io.TypeCode.t_ulong es t =
      if t == id_uint32 then fmap set_uint32_array (ulongs_of es) else throws no_conversion
  ua_array Io.TypeCode.t_llong es t =
      if t == id_uint32 then fmap set_uint32_array (llongs_of es) else throws no_conversion
  ua_array Io.TypeCode.t_string es t = ua_string_array es t
  ua_array Io.TypeCode.t_localized_text es t =
      if t == id_localized_text
      then fmap set_localized_text_array (localized_texts_of es)
      else throws no_conversion
  ua_array code es t = throws no_conversion

  -- The loop over a structure's fields in convertIoStructure2ua: `convert` looks a field's value up
  -- and converts it.
  unfoldable pub ua_structure_fields :
      (Text → UaNodeId → Option (Result UaVariant))
      → List StructureField
      → Result (List (Text × UaVariant))
  ua_structure_fields convert [] = ok []
  ua_structure_fields convert (f ∷ fs) =
      let rest = ua_structure_fields convert fs in
      elim (convert f.name f.type_id) [
        | none ↦ if f.is_optional then rest else throws missing_field
        | some r ↦ r >>= λ v. fmap (λ vs. (f.name, v) ∷ vs) rest
      ]

  -- The loop over a union's fields: the first one that has the value's name.
  unfoldable pub ua_union_field :
      (Text → UaNodeId → Option (Result UaVariant))
      → List StructureField
      → Result (Text × UaVariant)
  ua_union_field convert [] = throws missing_field
  ua_union_field convert (f ∷ fs) =
      let rest = ua_union_field convert fs in
      elim (convert f.name f.type_id) [ none ↦ rest | some r ↦ fmap (λ v. (f.name, v)) r ]

  -- A union value has no field or one; `count` is the number of fields.
  unfoldable pub ua_union :
      (Text → UaNodeId → Option (Result UaVariant)) → ℕ → StructureDefinition → Result UaVariant
  unfolding ua_union_field
  ua_union convert count sd =
      if ltb 1 count
      then throws too_many_fields
      else if count == 1
      then fmap (λ v. set_union sd (some v)) (ua_union_field convert sd.children)
      else ok (set_union sd none)

  -- convertIoStructure2ua
  unfoldable pub ua_structure :
      (Text → UaNodeId → Option (Result UaVariant)) → ℕ → StructureDefinition → Result UaVariant
  unfolding ua_union ua_structure_fields
  ua_structure convert count sd =
      if sd.is_union
      then ua_union convert count sd
      else fmap (set_structure sd) (ua_structure_fields convert sd.children)

  unfoldable pub field_count : Io.Fields → ℕ
  field_count Io.Fields.end = 0
  field_count (Io.Fields.field k v fs) = field_count fs + 1

  -- convertIo2ua, with the arrays of structures (whose elements are cast to `Structure`). The
  -- function on fields is the lookup of one name followed by the conversion of its value.
  unfoldable mutual
    unfolding ua_scalar ua_array ua_structure build_in_type field_count text_eq

    pub io_to_ua : Io.Variant → Callback → UaNodeId → Result UaVariant
    io_to_ua (Io.Variant.scalar v) cb dest = build_in_type cb dest >>= ua_scalar sdk v
    io_to_ua (Io.Variant.null_array t) cb dest = throws null_array
    io_to_ua (Io.Variant.array Io.TypeCode.t_structure es) cb dest =
        fmap set_extension_objects (structures_to_ua es cb dest)
    io_to_ua (Io.Variant.array t es) cb dest =
        build_in_type cb dest >>= λ u. ua_array t es (identifier_numeric u)
    io_to_ua (Io.Variant.structure id fs) cb dest =
        cb.get_structure_definition dest
        >>= ua_structure (λ name type. field_to_ua fs cb name type) (field_count fs)
    io_to_ua (Io.Variant.node_id id) cb dest = throws no_conversion
    io_to_ua (Io.Variant.node_properties h) cb dest = throws no_conversion
    io_to_ua (Io.Variant.event_data id m sev fs) cb dest = throws no_conversion

    pub structures_to_ua : Io.Elements → Callback → UaNodeId → Result (List UaVariant)
    structures_to_ua Io.Elements.nil cb dest = ok []
    structures_to_ua (Io.Elements.cons (Io.Variant.structure id fs) es) cb dest =
        (cb.get_structure_definition dest
          >>= ua_structure (λ name type. field_to_ua fs cb name type) (field_count fs))
        >>= λ v. fmap (λ vs. v ∷ vs) (structures_to_ua es cb dest)
    structures_to_ua (Io.Elements.cons v es) cb dest = undefined

    pub field_to_ua : Io.Fields → Callback → Text → UaNodeId → Option (Result UaVariant)
    field_to_ua Io.Fields.end cb name type = none
    field_to_ua (Io.Fields.field k v fs) cb name type =
        let here = some (io_to_ua v cb type) in
        let there = field_to_ua fs cb name type in if text_eq k name then here else there
