-- ===== src/Client/Requests/Answers.antt =====
-- src/binaryServer/Client.cpp, read: what the response to a request has.
use opc_ua_server.Prelude.{Bool, false, some, Option, [], ◌∷◌, ◌≡◌, refl, ◌==◌}
use opc_ua_server.Prelude.Int.{ℤ}
use opc_ua_server.Prelude.Result.{◌>>=◌, fmap}
use opc_ua_server.Binary.Dto
use opc_ua_server.Binary.Converter.{io_to_bin}
use opc_ua_server.Ua.Sdk.{UaNodeId}
use opc_ua_server.Session.{Attribute, UaSession, object_type_class, node_class, value, data_type}
use opc_ua_server.Session.Describing.{IsEquality, IsAnswered, describe, describe_values}
use opc_ua_server.Session.Reads.{read-describe}
use opc_ua_server.Client.Requests.{
  Converter, id_to_ua, read, read_attributes, first_attributes, attributes_to_bin, value_to_bin,
  dereference,
}

-- Where the server answers each request on its own and the node of the id is no object type and has a class,
-- a value and a data type, the response to a read request has the id and the conversion of the value for
-- the data type, with the exceptions of the converters.
pub read-answered :
    {Value : Type 0} (conv : Converter Value) (ns : ℤ) (same : UaNodeId → UaNodeId → Bool)
    (s : UaSession Value) (answer : UaNodeId × Attribute → Option Value) (p : Dto.ParamId)
    (c v t : Value)
    → IsEquality same
    → IsAnswered s answer
    → answer (id_to_ua ns p, node_class) ≡ some c
    → (s.to_int32 c == object_type_class) ≡ false
    → answer (id_to_ua ns p, value) ≡ some v
    → answer (id_to_ua ns p, data_type) ≡ some t
    → read conv ns same (some s) p
      ≡ fmap (λ w. (p, w)) (conv.to_io v (s.to_node_id t) >>= io_to_bin)
unfolding read read_attributes first_attributes attributes_to_bin value_to_bin dereference describe
    describe_values
read-answered conv ns same s answer p c v t q h e f g k =
    rw (read-describe s answer same (id_to_ua ns p ∷ []) q h (tt, tt), describe, e, f, g, k) refl
