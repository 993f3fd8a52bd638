-- ===== src/Ua/ToUa/Numbers.antt =====
-- src/sasModelProvider/base/ConverterUa2IO.cpp: convertIoScalar2ua.
use opc_ua_server.Prelude.{ℕ, ◌%◌, ◌||◌, Option, none, some, Text, c_str, ◌==◌, if◌then◌else◌}
use opc_ua_server.Prelude.Int.{ℤ, to_signed, to_unsigned, long_mod, short_mod, int_mod}
use opc_ua_server.Prelude.Result.{Result, ok, throws, no_conversion, out_of_range}
use opc_ua_server.Io
use opc_ua_server.Ua.Sdk.{
  Sdk, UaNodeId, id_boolean, id_sbyte, id_byte, id_int16, id_uint16, id_int32, id_uint32, id_int64,
  id_uint64, id_float, id_double, id_string, id_date_time, id_byte_string, id_localized_text,
  id_enumeration, id_duration, id_utc_time,
}
use opc_ua_server.Ua.ToUa.Elements.{in_range, map_c_str, english}

module _ (sdk : Sdk) where
  open sdk use {
    UaVariant, identifier_numeric, set_bool, set_sbyte, set_byte, set_int16, set_uint16, set_int32,
    set_uint32, set_int64, set_uint64, set_float, set_double, set_date_time, set_string,
    set_byte_string, set_localized_text, set_uint16_array, set_int32_array, set_uint32_array,
    set_string_array, set_localized_text_array, set_extension_objects, set_structure, set_union,
  }

  -- convertIoScalar2ua for the numeric types, by the number of the destination type.
  unfoldable pub ua_long : ℤ → ℕ → Result UaVariant
  unfolding in_range
  ua_long z t =
      if t == id_int32 || t == id_enumeration
      then ok (set_int32 (to_signed int_mod z))
      else if t == id_uint32
      then ok (set_uint32 (to_unsigned long_mod z % int_mod))
      else if t == id_uint16
      then (if in_range z 15
          then ok (set_uint16 (to_unsigned short_mod z))
          else throws out_of_range)
      else throws no_conversion

  unfoldable pub ua_llong : ℤ → ℕ → Result UaVariant
  unfolding in_range
  ua_llong z t =
      if t == id_int64
      then ok (set_int64 z)
      else if t == id_uint32
      then (if in_range z 31 then ok (set_uint32 (to_unsigned int_mod z)) else throws out_of_range)
      else if t == id_date_time || t == id_utc_time
      then ok (set_date_time z)
      else throws no_conversion

  -- For texts. The default UaLocalizedText is null in both parts.
  unfoldable pub ua_string : Option Text → ℕ → Result UaVariant
  unfolding map_c_str
  ua_string none t =
      if t == id_string
      then ok (set_string none)
      else if t == id_localized_text
      then ok (set_localized_text (none, none))
      else throws no_conversion
  ua_string (some s) t =
      if t == id_string
      then ok (set_string (some (c_str s)))
      else if t == id_localized_text
      then ok (set_localized_text (some english, some (c_str s)))
      else throws no_conversion

  -- convertIoScalar2ua
  unfoldable pub ua_scalar : Io.Scalar → UaNodeId → Result UaVariant
  unfolding ua_long ua_llong ua_string map_c_str
  ua_scalar (Io.Scalar.bool b) dest =
      if identifier_numeric dest == id_boolean then ok (set_bool b) else throws no_conversion
  ua_scalar (Io.Scalar.schar z) dest =
      if identifier_numeric dest == id_sbyte then ok (set_sbyte z) else throws no_conversion
  ua_scalar (Io.Scalar.char c) dest =
      if identifier_numeric dest == id_byte then ok (set_byte c) else throws no_conversion
  ua_scalar (Io.Scalar.int z) dest =
      if identifier_numeric dest == id_int16
      then ok (set_int16 (to_signed short_mod z))
      else throws no_conversion
  ua_scalar (Io.Scalar.uint n) dest =
      if identifier_numeric dest == id_uint16
      then ok (set_uint16 (n % short_mod))
      else throws no_conversion
  ua_scalar (Io.Scalar.long z) dest = ua_long z (identifier_numeric dest)
  ua_scalar (Io.Scalar.ulong n) dest =
      if identifier_numeric dest == id_uint32
      then ok (set_uint32 (n % int_mod))
      else throws no_conversion
  ua_scalar (Io.Scalar.llong z) dest = ua_llong z (identifier_numeric dest)
  ua_scalar (Io.Scalar.ullong n) dest =
      if identifier_numeric dest == id_uint64 then ok (set_uint64 n) else throws no_conversion
  ua_scalar (Io.Scalar.float f) dest =
      if identifier_numeric dest == id_float then ok (set_float f) else throws no_conversion
  ua_scalar (Io.Scalar.double d) dest =
      if identifier_numeric dest == id_double || identifier_numeric dest == id_duration
      then ok (set_double d)
      else throws no_conversion
  ua_scalar (Io.Scalar.string_value s) dest = ua_string s (identifier_numeric dest)
  ua_scalar (Io.Scalar.byte_string s) dest =
      if identifier_numeric dest == id_byte_string
      then ok (set_byte_string s)
      else throws no_conversion
  ua_scalar (Io.Scalar.localized_text l t) dest =
      if identifier_numeric dest == id_localized_text
      then ok (set_localized_text (map_c_str l, map_c_str t))
      else throws no_conversion
