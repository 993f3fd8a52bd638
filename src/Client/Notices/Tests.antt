-- ===== src/Client/Notices/Tests.antt =====
-- Notices of two nodes, one of which does not convert, and of two events.
use opc_ua_server.Prelude.{ℕ, true, false, none, some, [], ◌∷◌, ◌≡◌, refl}
use opc_ua_server.Prelude.Int.{pos}
use opc_ua_server.Prelude.Result.{ok, throws, undefined, no_conversion, bad_answer, Each}
use opc_ua_server.Io
use opc_ua_server.Binary.Dto
use opc_ua_server.Ua.Sdk.{UaNodeId, numeric}
use opc_ua_server.Session.{NodeAttributes}
use opc_ua_server.Client.Requests.{Converter, dereference, id_to_bin}
use opc_ua_server.Binary.Converter.{io_to_bin}
use opc_ua_server.Client.Notices.{
  MessageHandler, ReceivedEvent, element, data_changed, next_id, new_events, unix_time, event_of,
  no_parts,
}
use opc_ua_server.Client.Notices.Sent.{Numbered, data_changed-sent, new_events-Numbered}

abbrev converter : Converter ℕ
converter = record {
  to_ua = λ w t. throws no_conversion;
  to_io = λ v t. ok (Io.Variant.scalar (Io.Scalar.int (pos v)));
}

abbrev to_node_id : ℕ → UaNodeId
to_node_id v = numeric 2 v

-- It does not take notifications.
abbrev handler : MessageHandler
handler = record { notification_received = λ i es. throws bad_answer; event_received = λ e. ok tt }

abbrev level : NodeAttributes ℕ
level = record {
  node_id = numeric 2 1;
  value = some 7;
  data_type = some (numeric 0 6);
  node_class = none;
  has_exception = false;
}

abbrev failed : NodeAttributes ℕ
failed = record level { has_exception = true }

data_changed-sent_example :
    data_changed converter to_node_id handler 4 (failed ∷ level ∷ [])
    ≡ ok (
      5,
      (
        some ((Dto.create_numeric (pos 2) 1, Dto.Variant.scalar (Dto.Scalar.short (pos 7))) ∷ []),
        true,
      ),
    )
unfolding element id_to_bin io_to_bin
data_changed-sent_example =
    data_changed-sent converter to_node_id handler 4 (failed ∷ level ∷ []) (tt, (tt, tt))
      (λ j fs. tt)

-- 01.01.1970
epoch : unix_time (pos 116444736000000000) ≡ pos 0
unfolding unix_time
epoch = refl

-- An event without a source node dereferences a null pointer.
no_source : event_of converter to_node_id 1 (Dto.ParamId.numeric (pos 2) 1) no_parts ≡ undefined
unfolding event_of dereference
no_source = refl

abbrev event : ReceivedEvent ℕ
event = record { event_type = UaNodeId.guid 2; fields = [] }

numbers :
    Each
      (λ out. Numbered converter to_node_id 4 out.0 out.1.0)
      (new_events converter to_node_id handler 4 (event ∷ event ∷ []))
numbers = new_events-Numbered converter to_node_id handler 4 (event ∷ event ∷ [])

-- The counter starts again.
wrapped : next_id 4294967295 ≡ 0
unfolding next_id
wrapped = refl
