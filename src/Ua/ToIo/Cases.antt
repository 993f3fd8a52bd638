-- ===== src/Ua/ToIo/Cases.antt =====
-- src/sasModelProvider/base/ConverterUa2IO.cpp: the cases of convertUaBuildInType2io for the scalar
-- types, with node ids, array types and the map of a structure's fields.
use mathlib.Core.Option
use opc_ua_server.Prelude.{
  ℕ, zero, suc, Bool, true, false, ◌||◌, Option, none, some, [], ◌∷◌, Text, c_str, ltb, text_eq,
  ◌==◌, if◌then◌else◌,
}
use opc_ua_server.Prelude.Int.{pos, to_signed, long_mod}
use opc_ua_server.Prelude.Result.{
  Result, ok, throws, no_conversion, invalid_id_type, unsupported_array_type, fmap,
}
use opc_ua_server.Io
use opc_ua_server.Ua.Sdk.{
  Sdk, UaNodeId, ua_namespace, StructureField, StructureDefinition, LocalizedText, id_null,
  id_boolean, id_sbyte, id_byte, id_int16, id_uint16, id_int32, id_uint32, id_int64, id_uint64,
  id_float, id_double, id_string, id_date_time, id_byte_string, id_node_id, id_localized_text,
  id_structure, id_union, id_data_value, id_variant, id_enumeration, id_duration, id_utc_time,
}
use opc_ua_server.Ua.Sdk

unfoldable pub text_of : Option Text → Option Text
unfolding c_str
text_of none = none
text_of (some s) = some (c_str s)

-- convertUa2io of a node id: an identifier of 32 bits becomes a long.
unfoldable pub io_node_id : UaNodeId → Result Io.NodeId
unfolding c_str
io_node_id (Sdk.UaNodeId.numeric ns id) =
    ok (Io.NodeId.numeric (pos ns) (to_signed long_mod (pos id)))
io_node_id (Sdk.UaNodeId.string ns s) = ok (Io.NodeId.string (pos ns) (c_str s))
io_node_id (Sdk.UaNodeId.guid ns) = throws invalid_id_type
io_node_id (Sdk.UaNodeId.opaque ns) = throws invalid_id_type

-- The case for a value of the expected type: its getter's result, or null.
unfoldable pub expect : Bool → Option Io.Scalar → Result (Option Io.Variant)
expect true none = ok none
expect true (some s) = ok (some (Io.Variant.scalar s))
expect false r = throws no_conversion

-- A map of fields under construction: `fieldData[name] = v` on a `std::map` keyed by text.
unfoldable pub text_less : Text → Text → Bool
text_less [] [] = false
text_less [] (d ∷ t) = true
text_less (c ∷ s) [] = false
text_less (c ∷ s) (d ∷ t) = if ltb c d then true else if c == d then text_less s t else false

unfoldable pub insert_field : Text → Io.Variant → Io.Fields → Io.Fields
unfolding text_less text_eq
insert_field k v Io.Fields.end = Io.Fields.field k v Io.Fields.end
insert_field k v (Io.Fields.field j w fs) =
    if text_eq k j
    then Io.Fields.field k v fs
    else if text_less k j
    then Io.Fields.field k v (Io.Fields.field j w fs)
    else Io.Fields.field j w (insert_field k v fs)

-- getIoArrayType, by namespace and number.
unfoldable pub io_array_type : ℕ → ℕ → Result Io.TypeCode
io_array_type zero t =
    if t == id_null
    then ok Io.TypeCode.t_string
    else if t == id_int16
    then ok Io.TypeCode.t_int
    else if t == id_uint16
    then ok Io.TypeCode.t_uint
    else if t == id_int32 || t == id_enumeration
    then ok Io.TypeCode.t_long
    else if t == id_uint32
    then ok Io.TypeCode.t_ulong
    else if t == id_string
    then ok Io.TypeCode.t_string
    else if t == id_localized_text
    then ok Io.TypeCode.t_localized_text
    else if t == id_variant
    then ok Io.TypeCode.t_variant
    else if t == id_structure || t == id_union
    then ok Io.TypeCode.t_structure
    else throws unsupported_array_type
io_array_type (suc n) t = throws unsupported_array_type

module _ (sdk : Sdk) where
  open sdk use {
    UaVariant, type_of, is_array, array_items, variant_array_items, data_type, identifier_numeric,
    to_bool, to_sbyte, to_byte, to_int16, to_uint16, to_int32, to_uint32, to_int64, to_uint64,
    to_float, to_double, to_date_time, to_string, to_byte_string, to_localized_text, is_null_text,
    to_node_id, to_data_value, get_union, is_field_set, get_field,
  }

  -- The cases of convertUaBuildInType2io.
  unfoldable pub from_boolean : UaVariant → Result (Option Io.Variant)
  unfolding expect
  from_boolean v = expect (type_of v == id_boolean) (Option.map Io.Scalar.bool (to_bool v))

  unfoldable pub from_sbyte : UaVariant → Result (Option Io.Variant)
  unfolding expect
  from_sbyte v = expect (type_of v == id_sbyte) (Option.map Io.Scalar.schar (to_sbyte v))

  unfoldable pub from_byte : UaVariant → Result (Option Io.Variant)
  unfolding expect
  from_byte v = expect (type_of v == id_byte) (Option.map Io.Scalar.char (to_byte v))

  unfoldable pub from_int16 : UaVariant → Result (Option Io.Variant)
  unfolding expect
  from_int16 v = expect (type_of v == id_int16) (Option.map Io.Scalar.int (to_int16 v))

  unfoldable pub from_uint16 : UaVariant → Result (Option Io.Variant)
  unfolding expect
  from_uint16 v = expect (type_of v == id_uint16) (Option.map Io.Scalar.uint (to_uint16 v))

  -- Int32 and enumerations, whose values may come as UInt16.
  unfoldable pub from_int32 : UaVariant → Result (Option Io.Variant)
  unfolding expect
  from_int32 v =
      if type_of v == id_uint16
      then expect true (Option.map (λ n. Io.Scalar.long (pos n)) (to_uint16 v))
      else expect (type_of v == id_int32) (Option.map Io.Scalar.long (to_int32 v))

  unfoldable pub from_uint32 : UaVariant → Result (Option Io.Variant)
  unfolding expect
  from_uint32 v = expect (type_of v == id_uint32) (Option.map Io.Scalar.ulong (to_uint32 v))

  unfoldable pub from_int64 : UaVariant → Result (Option Io.Variant)
  unfolding expect
  from_int64 v = expect (type_of v == id_int64) (Option.map Io.Scalar.llong (to_int64 v))

  unfoldable pub from_uint64 : UaVariant → Result (Option Io.Variant)
  unfolding expect
  from_uint64 v = expect (type_of v == id_uint64) (Option.map Io.Scalar.ullong (to_uint64 v))

  unfoldable pub from_float : UaVariant → Result (Option Io.Variant)
  unfolding expect
  from_float v = expect (type_of v == id_float) (Option.map Io.Scalar.float (to_float v))

  unfoldable pub from_double : UaVariant → Result (Option Io.Variant)
  unfolding expect
  from_double v = expect (type_of v == id_double) (Option.map Io.Scalar.double (to_double v))

  unfoldable pub from_string : UaVariant → Result (Option Io.Variant)
  unfolding expect text_of
  from_string v =
      expect (type_of v == id_string) (some (Io.Scalar.string_value (text_of (to_string v))))

  unfoldable pub from_date_time : UaVariant → Result (Option Io.Variant)
  unfolding expect
  from_date_time v =
      expect (type_of v == id_date_time) (Option.map Io.Scalar.llong (to_date_time v))

  unfoldable pub from_byte_string : UaVariant → Result (Option Io.Variant)
  unfolding expect
  from_byte_string v =
      expect (type_of v == id_byte_string) (some (Io.Scalar.byte_string (to_byte_string v)))

  unfoldable pub from_node_id : UaVariant → Result (Option Io.Variant)
  unfolding io_node_id
  from_node_id v =
      if type_of v == id_node_id
      then fmap (λ id. some (Io.Variant.node_id id)) (io_node_id (to_node_id v))
      else throws no_conversion

  -- Of a null text neither part is read.
  unfoldable pub io_localized_text : LocalizedText → Io.Scalar
  unfolding text_of
  io_localized_text t =
      if is_null_text t
      then Io.Scalar.localized_text none none
      else Io.Scalar.localized_text (text_of t.0) (text_of t.1)

  unfoldable pub from_localized_text : UaVariant → Result (Option Io.Variant)
  unfolding expect io_localized_text
  from_localized_text v =
      expect (type_of v == id_localized_text) (Option.map io_localized_text (to_localized_text v))
