-- ===== src/Binary/Converter/Tests.antt =====
-- The conversions at concrete values.
use opc_ua_server.Prelude.{◌≡◌, bytes, arith}
use opc_ua_server.Prelude.Int.{pos}
use opc_ua_server.Io
use opc_ua_server.Binary.Dto
use opc_ua_server.Binary.Converter.{io_to_bin, node_id_of_param_id, param_id_of_node_id}
use opc_ua_server.Binary.Converter.Supported.{ReturnsIff, supported, io_to_bin-ReturnsIff}
use opc_ua_server.Binary.Converter.RoundTrip.{Trip, param_id-node_id, bin_to_io-io_to_bin}

-- A structure with a text and an array of texts.
abbrev pump : Dto.Variant
pump = Dto.Variant.struct (Dto.ParamId.numeric (pos 2) 41) (
    Dto.Fields.field (bytes "name")
      (Dto.Variant.array Dto.TypeCode.t_char
        (Dto.Elements.cons (Dto.Variant.scalar (Dto.Scalar.char 80)) Dto.Elements.nil))
      (Dto.Fields.field (bytes "parts")
        (Dto.Variant.array Dto.TypeCode.t_array (
          Dto.Elements.cons
            (Dto.Variant.array Dto.TypeCode.t_char
              (Dto.Elements.cons (Dto.Variant.scalar (Dto.Scalar.char 65)) Dto.Elements.nil))
            Dto.Elements.nil))
        Dto.Fields.end))

bin_to_io-io_to_bin_example : Trip pump (pos 1)
bin_to_io-io_to_bin_example =
    bin_to_io-io_to_bin pump (pos 1)
      (omega arith, ((λ h. omega arith, tt), ((tt, ((λ h. omega arith, tt), tt)), tt)))

id_with_namespace :
    param_id_of_node_id (node_id_of_param_id (Dto.ParamId.numeric (pos 2) 41) (pos 1))
    ≡ Dto.ParamId.numeric (pos 2) 41
id_with_namespace = param_id-node_id (Dto.ParamId.numeric (pos 2) 41) (pos 1) (omega arith)

io_to_bin-ReturnsIff_example :
    ReturnsIff
      (supported (Io.Variant.scalar (Io.Scalar.ullong 5)))
      (io_to_bin (Io.Variant.scalar (Io.Scalar.ullong 5)))
io_to_bin-ReturnsIff_example = io_to_bin-ReturnsIff (Io.Variant.scalar (Io.Scalar.ullong 5))
