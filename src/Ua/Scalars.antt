-- ===== src/Ua/Scalars.antt =====
-- The scalar types: ConverterUa2IO::convertIo2ua followed by ConverterUa2IO::convertUa2io.
pub mod Ranges
pub mod Kinds
use opc_ua_server.Prelude.{
  ℕ, suc, ◌%◌, sym, ap, ap₂, Bool-cases, ◌<◌, ◌^◌, ◌≡◌, ◌≢◌, ◌⊎◌, inl, inr, refl, Bool, false,
  Option, none, some, [], ◌∷◌, Text, NoNul, c_str-eq_of_NoNul, ◌==◌, ◌||◌, arith,
}
use opc_ua_server.Prelude.Int.{ℤ, pos, negsuc, InSigned, to_signed, short_mod, int_mod}
use opc_ua_server.Prelude.Result.{Result, ok}
use opc_ua_server.Io
use opc_ua_server.Ua.Sdk.{
  Sdk, Lawful, UaNodeId, id_boolean, id_sbyte, id_byte, id_int16, id_uint16, id_int32, id_uint32,
  id_int64, id_uint64, id_float, id_double, id_string, id_date_time, id_byte_string,
  id_localized_text, id_enumeration, id_duration, id_utc_time, id_structure, id_union,
}
use opc_ua_server.Ua.Sdk
use opc_ua_server.Ua.ToUa.{Callback, io_to_ua, map_c_str, build_in_type}
use opc_ua_server.Ua.ToIo.{ua_to_io, from_number, text_of, io_localized_text}
use opc_ua_server.Ua.Scalars.Ranges.{Canonical}
use opc_ua_server.Ua.Scalars.Kinds.{Canonical-Carried}

module _ (sdk : Sdk) (laws : Lawful sdk) where
  -- Under the laws of the SDK, a scalar of the kind that the standard's data type `t` is read as,
  -- within the type's range and with texts that are null or neither empty nor with a NUL inside, is
  -- written as an OPC UA value for `t`, and reading that value for `t` gives the scalar back, with
  -- one unit of fuel or more.
  pub scalar_round_trip :
      (cb : Callback) (fuel : ℕ) (v : Io.Scalar) (t : ℕ)
      → Canonical v t
      → (u : sdk.UaVariant) × (io_to_ua sdk (Io.Variant.scalar v) cb (Sdk.UaNodeId.numeric 0 t)
          ≡ ok u)
        × (ua_to_io sdk (suc fuel) cb u (Sdk.UaNodeId.numeric 0 t) ≡ ok (Io.Variant.scalar v))
  unfolding ua_to_io build_in_type
  scalar_round_trip cb fuel v t h =
      let (u, written, single, plain, read) = Canonical-Carried sdk laws v t h in
      (
        u,
        written cb,
        rw (single, laws.numeric_kept, plain, read (λ w s. ua_to_io sdk fuel cb w s)) refl,
      )
