-- ===== src/Client/Notices.antt =====
-- src/binaryServer/Client.cpp, dataChanged and newEvents: what the client tells its message handler. The
-- elements of a map stand in the order in which they are made. The time, the severity and the message of
-- an event without them are not initialised or null.
pub mod Sent
mod Tests
use opc_ua_server.Prelude.{
  ℕ, suc, ◌/◌, ◌-◌, ◌+◌, ◌%◌, ◌^◌, Bool, true, false, ◌||◌, Option, none, some, List, [], ◌∷◌, ◌++◌,
  if◌then◌else◌, ◌==◌, leb, Text,
}
use opc_ua_server.Prelude.Int.{ℤ, pos, negsuc}
use opc_ua_server.Prelude.Result.{Error, Result, ok, throws, undefined, ◌>>=◌, fmap, bad_node}
use opc_ua_server.Io
use opc_ua_server.Binary.Dto
use opc_ua_server.Ua.Sdk.{UaNodeId, numeric}
use opc_ua_server.Session.{NodeAttributes}
use opc_ua_server.Client.Requests.{
  Converter, id_to_bin, value_to_bin, dereference, attributes_to_bin,
}

abbrev pub Elements : Type 0
Elements = List (Dto.ParamId × Dto.Variant)

-- A field of an event that was received.
pub record FieldValue (Value : Type 0) : Type 0 where
  pub node_id : UaNodeId
  pub value : Option Value
  pub data_type : Option UaNodeId
  pub has_exception : Bool

pub record ReceivedEvent (Value : Type 0) : Type 0 where
  pub event_type : UaNodeId
  pub fields : List (FieldValue Value)

-- The Event message.
pub record Event : Type 0 where
  pub id : ℕ
  pub event_type : Dto.ParamId
  pub param_id : Dto.ParamId
  pub time : ℤ
  pub severity : ℕ
  pub message : Text
  pub elements : Elements

-- notificationReceived and eventReceived.
pub record MessageHandler : Type 0 where
  pub notification_received : ℕ → Elements → Result (Unit {0})
  pub event_received : Event → Result (Unit {0})

-- What an event has of its base type's fields, and its own elements.
pub record Parts : Type 0 where
  pub param_id : Option Dto.ParamId
  pub time : Option ℤ
  pub severity : Option ℕ
  pub message : Option Text
  pub elements : Elements

abbrev pub no_parts : Parts
no_parts = record { param_id = none; time = none; severity = none; message = none; elements = [] }

-- The counter of the messages, an `unsigned long`.
unfoldable pub next_id : ℕ → ℕ
next_id i = suc i % 2 ^ 32

-- v / 10 / 1000 - 11644473600000, rounded towards zero.
unfoldable pub unix_time : ℤ → ℤ
unix_time (pos n) =
    let ms = n / 10 / 1000 in
    if leb 11644473600000 ms then pos (ms - 11644473600000) else negsuc (11644473600000 - ms - 1)
unix_time (negsuc n) = negsuc ((n + 1) / 10 / 1000 + 11644473600000 - 1)

-- The members of the union that are read; those of another type are not what was written.
unfoldable pub time_of : Io.Variant → Result ℤ
unfolding unix_time
time_of (Io.Variant.scalar (Io.Scalar.llong z)) = ok (unix_time z)
time_of v = undefined

-- An OpcUa_UInt16.
unfoldable pub severity_of : Io.Variant → Result ℕ
severity_of (Io.Variant.scalar (Io.Scalar.uint n)) = ok (n % 2 ^ 16)
severity_of v = undefined

unfoldable pub message_of : Io.Variant → Result Text
message_of (Io.Variant.scalar (Io.Scalar.string_value (some s))) = ok s
message_of v = undefined

unfoldable pub set_time : Parts → ℤ → Parts
set_time ps t = record ps { time = some t }

unfoldable pub set_severity : Parts → ℕ → Parts
set_severity ps n = record ps { severity = some n }

unfoldable pub set_message : Parts → Text → Parts
set_message ps s = record ps { message = some s }

-- OpcUaId_BaseEventType_SourceNode, …_Time, …_Message and …_Severity.
abbrev source_node_id : ℕ
source_node_id = 2044

abbrev time_id : ℕ
time_id = 2046

abbrev message_id : ℕ
message_id = 2050

abbrev severity_id : ℕ
severity_id = 2051

module _ {Value : Type 0} (conv : Converter Value) (to_node_id : Value → UaNodeId) where
  unfoldable pub element : NodeAttributes Value → Result (Dto.ParamId × Dto.Variant)
  unfolding id_to_bin attributes_to_bin
  element x =
      if x.has_exception
      then throws bad_node
      else id_to_bin x.node_id >>= λ p. fmap (λ v. (p, v)) (attributes_to_bin conv x)

  unfoldable pub add_element :
      Result (Dto.ParamId × Dto.Variant) → Elements × Bool → Result (Elements × Bool)
  add_element undefined out = undefined
  add_element (throws e) (es, failed) = ok (es, true)
  add_element (ok e) (es, failed) = ok (e ∷ es, failed)

  -- The loop over the nodes: the elements, and whether there is an exception.
  unfoldable pub elements_of : List (NodeAttributes Value) → Result (Elements × Bool)
  unfolding element add_element
  elements_of [] = ok ([], false)
  elements_of (x ∷ xs) = elements_of xs >>= add_element (element x)

  -- Whether the call of the handler throws.
  unfoldable pub failing : Result (Unit {0}) → Result Bool
  failing undefined = undefined
  failing (throws e) = ok true
  failing (ok u) = ok false

  -- The notification if there is one, and whether an exception is thrown at the end.
  unfoldable pub notify : MessageHandler → ℕ → Elements × Bool → Result (Option Elements × Bool)
  unfolding failing
  notify h i ([], failed) = ok (none, failed)
  notify h i (e ∷ es, failed) =
      fmap (λ b. (some (e ∷ es), failed || b)) (failing (h.notification_received i (e ∷ es)))

  -- The counter of the messages goes on, also without a notification.
  unfoldable pub data_changed :
      MessageHandler → ℕ → List (NodeAttributes Value) → Result (ℕ × (Option Elements × Bool))
  unfolding elements_of notify next_id
  data_changed h i xs = fmap (λ out. (next_id i, out)) (elements_of xs >>= notify h i)

  unfoldable pub field_value : FieldValue Value → Result Io.Variant
  unfolding dereference
  field_value f = do v ← dereference f.value; t ← dereference f.data_type; conv.to_io v t

  unfoldable pub set_source_node : Parts → Dto.ParamId → Parts
  set_source_node ps p = record ps { param_id = some p }

  unfoldable pub set_element : Parts → Dto.ParamId → Dto.Variant → Parts
  set_element ps p w = record ps { elements = ps.elements ++ (p, w) ∷ [] }

  -- The switch on the number of a field of the namespace 0.
  unfoldable pub base_field : FieldValue Value → ℕ → Parts → Result Parts
  unfolding field_value set_source_node set_time set_severity set_message time_of severity_of
      message_of id_to_bin dereference
  base_field f i ps =
      if i == source_node_id
      then (dereference f.value >>= λ v. fmap (set_source_node ps) (id_to_bin (to_node_id v)))
      else if i == time_id
      then (field_value f >>= λ v. fmap (set_time ps) (time_of v))
      else if i == severity_id
      then (field_value f >>= λ v. fmap (set_severity ps) (severity_of v))
      else if i == message_id
      then (field_value f >>= λ v. fmap (set_message ps) (message_of v))
      else ok ps

  unfoldable pub own_field : FieldValue Value → Parts → Result Parts
  unfolding id_to_bin value_to_bin dereference set_element
  own_field f ps = do
    p ← id_to_bin f.node_id
    v ← dereference f.value
    t ← dereference f.data_type
    w ← value_to_bin conv v t
    ok (set_element ps p w)

  -- A text id of the namespace 0 has no number that the switch knows.
  unfoldable pub node_field : FieldValue Value → UaNodeId → Parts → Result Parts
  unfolding base_field own_field
  node_field f (numeric ns i) ps = if ns == 0 then base_field f i ps else own_field f ps
  node_field f (UaNodeId.string ns s) ps = if ns == 0 then ok ps else own_field f ps
  node_field f (UaNodeId.guid ns) ps = if ns == 0 then ok ps else own_field f ps
  node_field f (UaNodeId.opaque ns) ps = if ns == 0 then ok ps else own_field f ps

  unfoldable pub add_field : FieldValue Value → Parts → Result Parts
  unfolding node_field
  add_field f ps = if f.has_exception then throws bad_node else node_field f f.node_id ps

  unfoldable pub parts_of : List (FieldValue Value) → Parts → Result Parts
  unfolding add_field
  parts_of [] ps = ok ps
  parts_of (f ∷ fs) ps = add_field f ps >>= parts_of fs

  -- The Event's constructor reads all four parts.
  unfoldable pub event_of : ℕ → Dto.ParamId → Parts → Result Event
  unfolding dereference
  event_of i t ps = do
    p ← dereference ps.param_id
    time ← dereference ps.time
    severity ← dereference ps.severity
    message ← dereference ps.message
    ok (record {
      id = i;
      event_type = t;
      param_id = p;
      time = time;
      severity = severity;
      message = message;
      elements = ps.elements;
    })

  -- The first `try` block.
  unfoldable pub prepare_event : ReceivedEvent Value → Result (Dto.ParamId × Parts)
  unfolding id_to_bin parts_of
  prepare_event e =
      id_to_bin e.event_type >>= λ t. fmap (λ ps. (t, ps)) (parts_of e.fields no_parts)

  -- The second: the event, and whether the handler throws.
  unfoldable pub send_event : MessageHandler → ℕ → Dto.ParamId × Parts → Result (Event × Bool)
  unfolding event_of failing
  send_event h i (t, ps) = do e ← event_of i t ps; b ← failing (h.event_received e); ok (e, b)

  -- The loop over the events with the counter: the events told to the handler, the counter, and whether an
  -- exception is thrown at the end.
  unfoldable pub new_events :
      MessageHandler → ℕ → List (ReceivedEvent Value) → Result (List Event × (ℕ × Bool))
  unfolding prepare_event send_event next_id
  new_events h i [] = ok ([], (i, false))
  new_events h i (e ∷ es) =
      let skipped = new_events h i es in
      let rest = new_events h (next_id i) es in
      elim (prepare_event e) [
        | undefined ↦ undefined
        | throws w ↦ fmap (λ out. (out.0, (out.1.0, true))) skipped
        | ok x ↦ send_event h i x >>= λ sent.
            fmap (λ out. (sent.0 ∷ out.0, (out.1.0, sent.1 || out.1.1))) rest
      ]
