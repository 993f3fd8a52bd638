-- ===== src/Session/Connection/Losing.antt =====
-- src/binaryServer/HaSession.cpp: which pairs of a session and a subscription the methods leave.
use opc_ua_server.Prelude.{ℕ, ◌≡◌, refl, Bool, true, false, some, List, ◌∷◌}
use opc_ua_server.Prelude.Result.{ok, bad_answer}
use opc_ua_server.Ua.Sdk.{UaNodeId}
use opc_ua_server.Subscription
use opc_ua_server.Subscription.Methods.{remove_all}
use opc_ua_server.Session.{UaSession, NodeAttributes}
use opc_ua_server.Session.Reading.{read}
use opc_ua_server.Session.Connection.{
  State, null, live, thrown, stuck, close, disconnect, delete_subscription, deleted, Gathered,
  nothing, gather, add_valid, subscribe, subscribe_read, subscribe_gathered, finish_subscribe,
}

-- With the removal of the items done, a close whose disconnection fails throws and leaves the session without
-- its subscription: where some node can be added, a subscribe dereferences the null pointer.
pub subscribe-close_failed :
    {Value : Type 0} (same : UaNodeId → UaNodeId → Bool) (srv : Subscription.Server)
    (u : UaSession Value) (depth : ℕ) (ns : List UaNodeId) (t t' : Subscription.State)
    (attrs : List (NodeAttributes Value)) (g : Gathered Value) (a : NodeAttributes Value)
    (valid : List (NodeAttributes Value))
    → remove_all same srv t ≡ Subscription.returned t'
    → read same (some u) ns ≡ ok attrs
    → gather same u depth attrs nothing ≡ ok g
    → g.valid ≡ a ∷ valid
    → (s : State) × (close same srv false record { is_open = true; subscription = live t }
        ≡ thrown bad_answer s)
      × (subscribe same srv u depth ns s ≡ stuck)
unfolding close disconnect delete_subscription deleted subscribe subscribe_read subscribe_gathered
    finish_subscribe add_valid
subscribe-close_failed same srv u depth ns t t' attrs g a valid h r e v =
    (record { is_open = true; subscription = null }, rw (h) refl, rw (r, e, v) refl)
