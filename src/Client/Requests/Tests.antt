-- ===== src/Client/Requests/Tests.antt =====
-- Requests for a variable of the test session, whose values are sent as numbers.
use opc_ua_server.Prelude.{ℕ, some, ◌≡◌, refl}
use opc_ua_server.Prelude.Int.{pos}
use opc_ua_server.Prelude.Result.{ok, throws, fmap, ◌>>=◌, no_conversion, call_failed}
use opc_ua_server.Io
use opc_ua_server.Binary.Dto
use opc_ua_server.Binary.Converter.{io_to_bin, node_id_of_param_id}
use opc_ua_server.Ua.Sdk.{numeric}
use opc_ua_server.Ua.ToUa.{ua_node_id}
use opc_ua_server.Session.Tests.{same, session, answer, same-IsEquality}
use opc_ua_server.Client.Requests.{Converter, id_to_ua, read, invalid_parameter, respond}
use opc_ua_server.Client.Requests.Answers.{read-answered}

abbrev converter : Converter ℕ
converter = record {
  to_ua = λ w t. throws no_conversion;
  to_io = λ v t. ok (Io.Variant.scalar (Io.Scalar.int (pos v)));
}

abbrev variable : Dto.ParamId
variable = Dto.ParamId.numeric (pos 2) 1

variable_id : id_to_ua (pos 3) variable ≡ numeric 2 1
unfolding id_to_ua node_id_of_param_id ua_node_id
variable_id = refl

-- Only an exception with a code is thrown again.
refused :
    respond converter (pos 3) same (some session) (throws (call_failed 5)) ≡ throws (call_failed 5)
unfolding respond
refused = refl

not_converted :
    respond converter (pos 3) same (some session) (throws no_conversion) ≡ ok invalid_parameter
unfolding respond
not_converted = refl

read-answered_example :
    read converter (pos 3) same (some session) variable
    ≡ fmap (λ w. (variable, w)) (converter.to_io 7 (numeric 0 6) >>= io_to_bin)
unfolding id_to_ua node_id_of_param_id ua_node_id
read-answered_example =
    read-answered converter (pos 3) same session answer variable 2 7 6 same-IsEquality (λ rs. refl)
      refl refl refl refl
