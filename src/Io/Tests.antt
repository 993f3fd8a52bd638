-- ===== src/Io/Tests.antt =====
-- A copy of a concrete value.
use opc_ua_server.Prelude.{◌≡◌, none, some, bytes}
use opc_ua_server.Prelude.Int.{pos}
use opc_ua_server.Common.Exception
use opc_ua_server.Io
use opc_ua_server.Io.Copy.{copy, copy-eq}

abbrev alarm : Io.Variant
alarm = Io.Variant.event_data (Io.NodeId.numeric (pos 1) (pos 5)) (bytes "hot") (pos 500) (
    Io.EventFields.event_field (Io.NodeId.string (pos 1) (bytes "t"))
      (Io.Payload.value (Io.Variant.scalar (Io.Scalar.long (pos 90))))
      (some (Exception.Exception.plain (bytes "late") (bytes "P.cpp") 3 none))
      Io.EventFields.no_fields)

copied_variant : copy alarm ≡ alarm
copied_variant = copy-eq alarm
