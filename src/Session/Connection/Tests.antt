-- ===== src/Session/Connection/Tests.antt =====
-- A connection whose third attempt succeeds, and a session that is closed and used again.
use opc_ua_server.Prelude.{ℕ, true, false, none, some, [], ◌∷◌, ◌≡◌, refl, ◌==◌, arith, text_eq}
use opc_ua_server.Prelude.Result.{ok, bad_answer}
use opc_ua_server.Ua.Sdk.{numeric}
use opc_ua_server.EventTypes.{find, assign}
use opc_ua_server.Subscription
use opc_ua_server.Subscription.Methods.{remove_all, remove, nodes_of, remove_chosen}
use opc_ua_server.Session.{with_session, create, NodeAttributes}
use opc_ua_server.Session.Tests.{same, session}
use opc_ua_server.Session.Reading.{
  read, read_open, read_values, read_attributes, read_requests, requests, requests_of, attr_to_read,
  store_all, store, change_at, classify, classify_node, mark, places, merge_all, merge, or_else,
}
use opc_ua_server.Session.Connection.{
  Configuration, Connect, connected, timed_out, smaller, longer, try_connect, open_connection,
  State, live, close, subscribe, gather, gather_node, node_fields, is_object_type, nothing, thrown,
  stuck,
}
use opc_ua_server.Session.Connection.Timing.{EndsBy, open_connection-EndsBy}
use opc_ua_server.Session.Connection.Losing.{subscribe-close_failed}

abbrev configuration : Configuration
configuration = record { connect_timeout = 5; max_reconnect_delay = 10 }

abbrev third : Connect
third = λ i limit. (i == 2, 0)

-- It sleeps for one second, and then for two.
opened_after : open_connection configuration third 6 100 ≡ some (connected 103)
unfolding open_connection try_connect smaller longer
opened_after = refl

never : open_connection configuration (λ i limit. (false, 0)) 6 100 ≡ some (timed_out 105)
unfolding open_connection try_connect smaller longer
never = refl

open_connection-EndsBy_example : EndsBy 105 (open_connection configuration third 6 100)
open_connection-EndsBy_example =
    open_connection-EndsBy configuration third 100 (omega arith) (λ i limit. omega arith)

abbrev server : Subscription.Server
server = record {
  create_subscription = some 1;
  create_items = λ i rs. none;
  delete_items = λ i ids. none;
  delete_subscription = λ i. true;
}

abbrev variable : NodeAttributes ℕ
variable = record {
  node_id = numeric 2 1;
  value = some 7;
  data_type = some (numeric 0 6);
  node_class = some 2;
  has_exception = false;
}

nothing_removed :
    remove_all same server Subscription.start ≡ Subscription.returned Subscription.start
unfolding remove_all remove nodes_of Subscription.choose remove_chosen
nothing_removed = refl

variable_read : read same (some session) (numeric 2 1 ∷ []) ≡ ok (variable ∷ [])
unfolding read with_session read_open read_values read_attributes read_requests requests requests_of
    attr_to_read store_all store change_at classify classify_node mark places merge_all merge
    or_else create find assign text_eq
variable_read = refl

variable_gathered :
    gather same session 1 (variable ∷ []) nothing ≡ ok (record nothing { valid = variable ∷ [] })
unfolding gather gather_node node_fields is_object_type
variable_gathered = refl

subscribe-close_failed_example :
    (s : State) × (close same server false
        record { is_open = true; subscription = live Subscription.start }
      ≡ thrown bad_answer s)
    × (subscribe same server session 1 (numeric 2 1 ∷ []) s ≡ stuck)
subscribe-close_failed_example =
    subscribe-close_failed same server session 1 (numeric 2 1 ∷ []) Subscription.start
      Subscription.start (variable ∷ []) (record nothing { valid = variable ∷ [] }) variable []
      nothing_removed variable_read variable_gathered refl
