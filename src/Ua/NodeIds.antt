-- ===== src/Ua/NodeIds.antt =====
-- Node ids: ConverterUa2IO::convertIo2ua followed by ConverterUa2IO::convertUa2io.
use opc_ua_server.Prelude.{ℕ, ◌<◌, ◌%◌, ◌^◌, ◌≡◌, NoNul, c_str-eq_of_NoNul, arith, refl}
use opc_ua_server.Prelude.Int.{
  ℤ, pos, negsuc, InSigned, to_signed, to_unsigned, int_mod, long_mod, short_mod,
}
use opc_ua_server.Prelude.Result.{ok}
use opc_ua_server.Io
use opc_ua_server.Ua.ToUa.{ua_node_id}
use opc_ua_server.Ua.ToIo.{io_node_id}

-- The namespace index is an unsigned 16-bit number, a number is a `long`, a text has no NUL.
abbrev pub IsPortable : Io.NodeId → Type 0
IsPortable (Io.NodeId.numeric (pos n) z) = (n < 2 ^ 16) × InSigned (2 ^ 31) z
IsPortable (Io.NodeId.string (pos n) s) = (n < 2 ^ 16) × NoNul s
IsPortable id = ⊥

number_trip : (z : ℤ) → InSigned (2 ^ 31) z → to_signed long_mod (pos (to_unsigned int_mod z)) ≡ z
number_trip (pos n) h = ground arith
number_trip (negsuc n) h = ground arith

index_trip : (n : ℕ) → n < 2 ^ 16 → n % short_mod ≡ n
index_trip n h = ground arith

-- A node id with a namespace index below 2 ^ 16, and with a number of a 32-bit `long` or a text
-- without NUL, is the same after the way to an OPC UA node id and back.
pub io_node_id-ua_node_id : (id : Io.NodeId) → IsPortable id → io_node_id (ua_node_id id) ≡ ok id
unfolding io_node_id ua_node_id
io_node_id-ua_node_id (Io.NodeId.numeric (pos n) z) (h, k) =
    rw (index_trip n h, number_trip z k) refl
io_node_id-ua_node_id (Io.NodeId.string (pos n) s) (h, k) =
    rw (index_trip n h, c_str-eq_of_NoNul s k, c_str-eq_of_NoNul s k) refl
io_node_id-ua_node_id (Io.NodeId.numeric (negsuc n) z) h = elim h [ ]
io_node_id-ua_node_id (Io.NodeId.string (negsuc n) s) h = elim h [ ]
