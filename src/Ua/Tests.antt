-- ===== src/Ua/Tests.antt =====
-- The theorems on ConverterUa2IO.cpp at an SDK in memory.
use opc_ua_server.Prelude.{◌≡◌, refl, none, some, bytes, arith}
use opc_ua_server.Prelude.Int.{pos, negsuc}
use opc_ua_server.Prelude.Result.{ok, throws, no_conversion, out_of_range}
use opc_ua_server.Io
use opc_ua_server.Ua.Sdk.{
  Sdk, Lawful, UaNodeId, LocalizedText, StructureField, StructureDefinition, id_boolean, id_sbyte,
  id_byte, id_int16, id_uint16, id_int32, id_uint32, id_int64, id_uint64, id_float, id_double,
  id_date_time, id_string, id_byte_string, id_localized_text, id_structure, id_null,
}
use opc_ua_server.Ua.Sdk
use opc_ua_server.Ua.ToUa.{Callback, io_to_ua, ua_node_id, ua_long, ua_llong}
use opc_ua_server.Ua.ToIo.{ua_to_io, io_node_id}
use opc_ua_server.Ua.ToUa.Guards.{guards_without_upper_bound}
use opc_ua_server.Ua.Scalars.{scalar_round_trip}
use opc_ua_server.Ua.NodeIds.{io_node_id-ua_node_id}
use opc_ua_server.Ua.Memory.{Value, memory, memory-Lawful, uint16_value, uint32_value}

-- A model without types of its own.
abbrev plain_model : Callback
plain_model = record {
  get_structure_definition = λ t. throws no_conversion;
  get_super_types = λ t. ok none;
}

scalar_round_trip_example :
    (u : Value) × (io_to_ua memory
        (Io.Variant.scalar (Io.Scalar.localized_text (some (bytes "en")) (some (bytes "on"))))
        plain_model
        (Sdk.UaNodeId.numeric 0 id_localized_text)
      ≡ ok u)
    × (ua_to_io memory 1 plain_model u (Sdk.UaNodeId.numeric 0 id_localized_text)
        ≡ ok (Io.Variant.scalar (Io.Scalar.localized_text (some (bytes "en")) (some (bytes "on")))))
scalar_round_trip_example =
    scalar_round_trip memory memory-Lawful plain_model 0
      (Io.Scalar.localized_text (some (bytes "en")) (some (bytes "on"))) id_localized_text
      (refl, ground arith, ground arith)

-- 70000 is written as 4464.
guards_without_upper_bound_example :
    (ua_long memory (pos 70000) id_uint16 ≡ ok (uint16_value 4464))
    × (ua_llong memory (pos 70000) id_uint32 ≡ ok (uint32_value 70000))
    × (ua_long memory (negsuc 70000) id_uint16 ≡ throws out_of_range)
    × (ua_llong memory (negsuc 70000) id_uint32 ≡ throws out_of_range)
guards_without_upper_bound_example = guards_without_upper_bound memory 70000

same_portable_id :
    io_node_id (ua_node_id (Io.NodeId.numeric (pos 2) (negsuc 6)))
    ≡ ok (Io.NodeId.numeric (pos 2) (negsuc 6))
same_portable_id =
    io_node_id-ua_node_id (Io.NodeId.numeric (pos 2) (negsuc 6)) (omega arith, omega arith)
