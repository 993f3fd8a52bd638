-- ===== src/Subscription/RoundTrip.antt =====
-- src/binaryServer/HaSubscription.cpp: `remove` after `add`.
use opc_ua_server.Prelude.{
  ℕ, Bool, true, false, List, [], ◌∷◌, ◌++◌, Option, none, some, ◌≡◌, refl, ◌+◌, arith, ◌≤◌,
}
use opc_ua_server.Prelude.Result.{ok}
use opc_ua_server.Ua.Sdk.{UaNodeId}
use opc_ua_server.Subscription.Handles.{lookup, erase}
use opc_ua_server.Subscription.Handles.Order.{Below, lookup_head, erase_head}
use opc_ua_server.Subscription.{
  State, Server, EventField, NodeAttributes, MonitoredItem, and_then, release, choose, first_item,
  add_chosen, forget,
}
use opc_ua_server.Subscription.Methods.{add, remove, finish_remove, fields_of, ids_of}
use opc_ua_server.Subscription.Invariant.{IsValid}
use opc_ua_server.Subscription.Emptying.{remove_chosen_step}
use opc_ua_server.Subscription.Adding.{requests}
use opc_ua_server.Subscription.Adding.Finish.{Subscribed, add-created, state}

lookup_last :
    (c : ℕ) (x : MonitoredItem) (ms : List (ℕ × MonitoredItem))
    → Below c ms
    → lookup c (ms ++ (c, x) ∷ []) ≡ some x
unfolding lookup
lookup_last c x [] b = lookup_head c x []
lookup_last c x ((k, y) ∷ ms) b = let rest = lookup_last c x ms b.1 in ground arith

erase_last :
    (c : ℕ) (x : MonitoredItem) (ms : List (ℕ × MonitoredItem))
    → Below c ms
    → erase c (ms ++ (c, x) ∷ []) ≡ ms
unfolding erase
erase_last c x [] b = erase_head c x []
erase_last c x ((k, y) ∷ ms) b = let rest = erase_last c x ms b.1 in ground arith

first_item_last :
    (same : UaNodeId → UaNodeId → Bool) (n : UaNodeId) (c : ℕ) (x : MonitoredItem)
    (ms : List (ℕ × MonitoredItem))
    → first_item same n ms ≡ none
    → same n x.node_attr.node_id ≡ true
    → first_item same n (ms ++ (c, x) ∷ []) ≡ some (c, x.id)
unfolding first_item
first_item_last same n c x [] h e = rw e refl
first_item_last same n c x ((k, y) ∷ ms) h e =
    let rest = first_item_last same n c x ms in ground arith

forget_last :
    (c j : ℕ) (x : MonitoredItem) (ms : List (ℕ × MonitoredItem))
    → Below c ms
    → forget ((c, j) ∷ []) (true ∷ []) (ms ++ (c, x) ∷ []) ≡ ok (ms, false)
unfolding forget
forget_last c j x ms b = rw (forget, lookup_last c x ms b, erase_last c x ms b) refl

-- A node that is not monitored, a variable or an event type with its fields, is added, when there is
-- a subscription or the server creates one, the server creates the item with a number and later
-- deletes the item of that number: a `remove` of the node after its `add` leaves the items as they
-- were before, and deletes the subscription if there are none.
pub remove-add :
    (same : UaNodeId → UaNodeId → Bool) (m : List (UaNodeId × List EventField)) (srv : Server)
    (s : State) (i j : ℕ) (a : NodeAttributes) (fs : Option (List EventField))
    → IsValid s
    → fields_of same a m ≡ ok fs
    → s.client_handle_counter + 1 ≤ 2147483647
    → Subscribed srv s i
    → srv.create_items i (requests s.client_handle_counter ((a, fs) ∷ [])) ≡ some (some j ∷ [])
    → srv.delete_items i (j ∷ []) ≡ some (true ∷ [])
    → first_item same a.node_id s.monitored_items ≡ none
    → same a.node_id a.node_id ≡ true
    → and_then (add same srv (a ∷ []) m s) (remove same srv (a.node_id ∷ []))
      ≡ release srv (state (s.client_handle_counter + 1) (some i) s.monitored_items)
unfolding remove choose add_chosen and_then finish_remove ids_of
remove-add same m srv s i j a fs v f l u e d n r =
    let c = s.client_handle_counter in
    let x : MonitoredItem = record { id = j; node_attr = a; event_fields = fs } in
    let t = state (c + 1) (some i) (s.monitored_items ++ (c, x) ∷ []) in
    rw
      (
        add-created same m srv s i (a, fs) [] (some j ∷ []) v (f, tt) l u e refl,
        first_item_last same a.node_id c x s.monitored_items n r,
        remove_chosen_step srv ((c, j) ∷ []) t i (true ∷ []) (λ h. cc) refl d,
        forget_last c j x s.monitored_items v.1.1,
      )
      refl
