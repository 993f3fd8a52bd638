-- ===== src/Bridge/Changes/Events.antt =====
-- src/sasModelProvider/base/IODataProviderSubscriberCallback.cpp: the event that is fired, without the order of the
-- calls.
use opc_ua_server.Prelude.{◌≡◌, refl, Option, none, some, List, [], ◌∷◌, Text, c_str}
use opc_ua_server.Prelude.Int.{ℤ}
use opc_ua_server.Prelude.Result.{Result, ok, throws, undefined, ◌>>=◌}
use opc_ua_server.Io
use opc_ua_server.Ua.Sdk.{UaNodeId}
use opc_ua_server.Bridge.{Variable}
use opc_ua_server.Bridge.Changes.{
  Environment, FiredEvent, payload_value, field_variable, field_data, source_name_of, ua_time,
  process_opc_ua_event,
}

-- What a call that is defined gives.
abbrev pub Gives : {A : Type 0} → Result A → Option A → Type 0
Gives (ok x) o = o ≡ some x
Gives (throws e) o = o ≡ none
Gives undefined o = Unit {0}

-- What is given by a call, and by a second one that needs it.
abbrev pub value_of : {A : Type 0} → Result A → Option A
value_of (ok x) = some x
value_of r = none

abbrev pub and_given : {A B : Type 0} → Option A → (A → Option B) → Option B
and_given none f = none
and_given (some x) f = f x

value_of-Gives : {A : Type 0} (r : Result A) → Gives r (value_of r)
value_of-Gives (ok x) = refl
value_of-Gives (throws e) = refl
value_of-Gives undefined = tt

and_given-Gives :
    {A B : Type 0} (r : Result A) (o : Option A) (f : A → Result B) (g : A → Option B)
    → Gives r o
    → ((x : A) → Gives (f x) (g x))
    → Gives (r >>= f) (and_given o g)
and_given-Gives (ok x) o f g h k = rw h (k x)
and_given-Gives (throws e) o f g h k = rw h refl
and_given-Gives undefined o f g h k = tt

module _ (env : Environment) where
  -- No value is the null value.
  abbrev pub payload : Io.Payload → UaNodeId → Option env.Value
  payload Io.Payload.null t = some env.null_value
  payload (Io.Payload.value w) t = value_of (env.to_value w t)

  -- The fields with their values, if each is a known variable whose value converts.
  abbrev pub fields_given : Io.EventFields → Option (List (UaNodeId × env.Value))
  fields_given Io.EventFields.no_fields = some []
  fields_given (Io.EventFields.event_field k w x fs) =
      and_given (value_of (env.convert_node_id k)) λ id. and_given (env.get_variable id) λ v.
        and_given (payload w v.data_type)
          λ u. and_given (fields_given fs) λ rest. some ((id, u) ∷ rest)

  -- The event, if its source is a known node, its time fits and its fields are given.
  abbrev pub event_given :
      ℤ → UaNodeId → Io.NodeId → Text → ℤ → Io.EventFields → Option (FiredEvent env)
  event_given time type source message severity fs =
      and_given (value_of (env.convert_node_id source)) λ id. and_given (env.get_node id) λ name.
        and_given (value_of (ua_time time)) λ t. and_given (fields_given fs) λ fields.
          some (record {
            event_type = type;
            source_node = id;
            source_name = name;
            message = c_str message;
            severity = severity;
            time = t;
            field_data = fields;
          })

  payload-Gives : (w : Io.Payload) (t : UaNodeId) → Gives (payload_value env w t) (payload w t)
  unfolding payload_value
  payload-Gives Io.Payload.null t = refl
  payload-Gives (Io.Payload.value w) t = value_of-Gives (env.to_value w t)

  variable-Gives : (o : Option Variable) → Gives (field_variable env o) o
  unfolding field_variable
  variable-Gives none = refl
  variable-Gives (some x) = refl

  name-Gives : (o : Option Text) → Gives (source_name_of env o) o
  unfolding source_name_of
  name-Gives none = refl
  name-Gives (some name) = refl

  fields-Gives : (fs : Io.EventFields) → Gives (field_data env fs) (fields_given fs)
  unfolding field_data
  fields-Gives Io.EventFields.no_fields = refl
  fields-Gives (Io.EventFields.event_field k w x fs) =
      and_given-Gives (env.convert_node_id k) (value_of (env.convert_node_id k)) _ _
        (value_of-Gives (env.convert_node_id k))
        λ id.
          and_given-Gives (field_variable env (env.get_variable id)) (env.get_variable id) _ _
            (variable-Gives (env.get_variable id))
            λ v.
              and_given-Gives (payload_value env w v.data_type) (payload w v.data_type) _ _
                (payload-Gives w v.data_type)
                λ u.
                  and_given-Gives (field_data env fs) (fields_given fs) _ _ (fields-Gives fs)
                    λ rest. refl

  pub event-Gives :
      (time : ℤ) (type : UaNodeId) (source : Io.NodeId) (message : Text) (severity : ℤ)
      (fs : Io.EventFields)
      → Gives
          (process_opc_ua_event env time type source message severity fs)
          (event_given time type source message severity fs)
  unfolding process_opc_ua_event
  event-Gives time type source message severity fs =
      and_given-Gives (env.convert_node_id source) (value_of (env.convert_node_id source)) _ _
        (value_of-Gives (env.convert_node_id source))
        λ id.
          and_given-Gives (source_name_of env (env.get_node id)) (env.get_node id) _ _
            (name-Gives (env.get_node id))
            λ name.
              and_given-Gives (ua_time time) (value_of (ua_time time)) _ _
                (value_of-Gives (ua_time time))
                λ t.
                  and_given-Gives (field_data env fs) (fields_given fs) _ _ (fields-Gives fs)
                    λ fields. refl
