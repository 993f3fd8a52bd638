-- ===== src/Subscription/Tests.antt =====
-- A subscription to two variables and an event type.
use opc_ua_server.Prelude.{
  ℕ, Bool, true, false, Option, none, some, List, [], ◌∷◌, ◌≡◌, ◌≢◌, refl, ◌==◌, ◌&&◌, bytes, ◌≤◌,
  length, arith, if◌then◌else◌, inl, inr, ◌+◌,
}
use opc_ua_server.Prelude.Result.{ok, undefined}
use opc_ua_server.Ua.Sdk.{UaNodeId, numeric}
use opc_ua_server.EventTypes.{find}
use opc_ua_server.Subscription.{
  State, Server, EventField, NodeAttributes, MonitoredItem, Target, returned, thrown, stuck,
  value_of, cannot_add_item, cannot_create_subscription, start, and_then, release, first_item,
  state_of, is_empty, delete_subscription, target_of,
}
use opc_ua_server.Subscription.Methods.{
  add, remove, remove_all, subscription_status_changed, data_change, new_events, Delivery,
  FieldValue, fields_of, ids_of,
}
use opc_ua_server.Subscription.Invariant.{IsValid}
use opc_ua_server.Subscription.Reach.{Reach, here, next, adds, Reach-IsValid}
use opc_ua_server.Subscription.Connected.{IsCreating}
use opc_ua_server.Subscription.Removal.{IsBrief, remove-moves}
use opc_ua_server.Subscription.Adding.Finish.{add-created, state}
use opc_ua_server.Subscription.Emptying.{remove_all-empties}
use opc_ua_server.Subscription.Adding.{Wanted, entries}
use opc_ua_server.Subscription.Failing.{add-failed_creation}
use opc_ua_server.Subscription.RoundTrip.{remove-add}

abbrev same_numbers : UaNodeId → UaNodeId → Bool
same_numbers (numeric ns i) (numeric ms j) = ns == ms && i == j
same_numbers s t = false

abbrev variable : ℕ → NodeAttributes
variable i = record { node_id = numeric 2 i; is_object_type = false }

abbrev alarm : NodeAttributes
alarm = record { node_id = numeric 2 10; is_object_type = true }

abbrev message : EventField
message = record { qualified_name = bytes "Message"; has_exception = false }

abbrev event_fields : List (UaNodeId × List EventField)
event_fields = (numeric 2 10, message ∷ []) ∷ []

-- It numbers the items from 71 on, but refuses the node 3, and deletes what it is asked to.
abbrev numbers : ℕ → List (ℕ × Target) → List (Option ℕ)
numbers n [] = []
numbers n ((h, value_of (numeric ns i)) ∷ rs) =
    if i == 3 then none ∷ numbers n rs else some n ∷ numbers (n + 1) rs
numbers n (r ∷ rs) = some n ∷ numbers (n + 1) rs

abbrev all_good : List ℕ → List Bool
all_good [] = []
all_good (i ∷ is) = true ∷ all_good is

abbrev server : Server
server = record {
  create_subscription = some 5;
  create_items = λ i rs. some (numbers 71 rs);
  delete_items = λ i ids. some (all_good ids);
  delete_subscription = λ i. true;
}

abbrev refusing : Server
refusing = record server { create_subscription = none }

abbrev item : ℕ → NodeAttributes → Option (List EventField) → MonitoredItem
item i a fs = record { id = i; node_attr = a; event_fields = fs }

abbrev two : State
two =
    state 3 (some 5)
      ((1, item 71 (variable 1) none) ∷ (2, item 72 alarm (some (message ∷ []))) ∷ [])

two_added : add same_numbers server (variable 1 ∷ alarm ∷ []) event_fields start ≡ returned two
unfolding add
two_added = refl

-- The second of the nodes is refused: its handle 4 is not used again.
abbrev three : State
three = state 6 (some 5) (
    (1, item 71 (variable 1) none)
    ∷ (2, item 72 alarm (some (message ∷ [])))
    ∷ (3, item 71 (variable 4) none)
    ∷ (5, item 72 (variable 5) none)
    ∷ [])

one_refused :
    add same_numbers server (variable 4 ∷ variable 3 ∷ variable 5 ∷ []) event_fields two
    ≡ thrown three cannot_add_item
unfolding add
one_refused = refl

two-IsValid : IsValid two
two-IsValid = (
  omega arith,
  (((omega arith, tt), (tt, tt)), (omega arith, (omega arith, tt)), (refl, (refl, tt))),
)

reached : Reach same_numbers IsCreating two
unfolding add state_of
reached = next {s = start} server (λ e. cc) here (adds (variable 1 ∷ alarm ∷ []) event_fields refl)

Reach-IsValid_example : IsValid two
Reach-IsValid_example = Reach-IsValid same_numbers IsCreating two reached

brief : (ids : List ℕ) → length (all_good ids) ≤ length ids
brief [] = omega arith
brief (i ∷ ids) = omega (arith, brief ids)

server-IsBrief : IsBrief server
server-IsBrief i ids answers e = let q : all_good ids ≡ answers = cc in rw (← q) (brief ids)

remove-moves_example : remove same_numbers server (numeric 2 10 ∷ numeric 2 9 ∷ []) two ≢ stuck
remove-moves_example =
    remove-moves same_numbers two server (numeric 2 10 ∷ numeric 2 9 ∷ []) reached server-IsBrief

add-created_example :
    add same_numbers server (variable 4 ∷ variable 3 ∷ variable 5 ∷ []) event_fields two
    ≡ thrown three cannot_add_item
unfolding release fields_of is_empty and_then target_of
add-created_example =
    add-created same_numbers event_fields server two 5 (variable 4, none)
      ((variable 3, none) ∷ (variable 5, none) ∷ []) (some 71 ∷ none ∷ some 72 ∷ []) two-IsValid
      (refl, (refl, (refl, tt))) (omega arith) (inl refl) refl refl

remove-add_example :
    and_then
      (add same_numbers server (variable 7 ∷ []) [] start)
      (remove same_numbers server (numeric 2 7 ∷ []))
    ≡ returned (state 2 none [])
unfolding release fields_of is_empty first_item delete_subscription target_of
remove-add_example =
    remove-add same_numbers [] server start 5 71 (variable 7) none (omega arith, (tt, tt, tt)) refl
      (omega arith) (inr (refl, refl)) refl refl refl refl

remove_all-empties_example : remove_all same_numbers server two ≡ returned (state 3 none [])
unfolding ids_of
remove_all-empties_example =
    remove_all-empties same_numbers two server 5 (true ∷ true ∷ []) (refl, (refl, tt))
      ((refl, tt), (tt, tt)) (λ e. cc) refl refl (refl, (refl, tt)) refl refl

-- The nodes are monitored, but there is no subscription to remove them from.
abbrev two_nodes : Wanted
two_nodes = (variable 1, none) ∷ (alarm, some (message ∷ [])) ∷ []

add-failed_creation_example :
    (add same_numbers refusing (variable 1 ∷ alarm ∷ []) event_fields (state 1 none [])
      ≡ thrown (state 3 none (entries 1 two_nodes)) cannot_create_subscription)
    × (((srv : Server)
          → remove same_numbers srv (numeric 2 1 ∷ []) (state 3 none (entries 1 two_nodes)) ≡ stuck)
        × (((srv : Server)
              → remove same_numbers srv (numeric 2 10 ∷ []) (state 3 none (entries 1 two_nodes))
                ≡ stuck)
            × Unit {0}))
unfolding fields_of find
add-failed_creation_example =
    add-failed_creation same_numbers two_nodes 1 [] refusing event_fields (λ e. cc)
      (refl, (refl, tt)) (refl, (refl, tt)) tt (omega arith) refl

-- A node that is monitored twice: removeAll asks for its first item twice, and the second stays.
removed_twice :
    remove_all same_numbers server
      (state 3 (some 5) ((1, item 71 (variable 1) none) ∷ (2, item 72 (variable 1) none) ∷ []))
    ≡ returned (state 3 (some 5) ((2, item 72 (variable 1) none) ∷ []))
unfolding remove_all release
removed_twice = refl

-- The server has lost the subscription: the items get new handles in a new one.
renewed :
    subscription_status_changed same_numbers server true two
    ≡ returned (
        state 5
          (some 5)
          ((3, item 71 (variable 1) none) ∷ (4, item 72 alarm (some (message ∷ []))) ∷ []))
unfolding subscription_status_changed
renewed = refl

-- Two values and a bad status; the handle 9 is unknown.
values_received :
    data_change {Value = ℕ}
      ((1, some 30) ∷ (9, some 4) ∷ (1, none) ∷ (1, some 31) ∷ [])
      two.monitored_items
    ≡ Delivery.value (numeric 2 1) 30
      ∷ Delivery.failed (numeric 2 1)
      ∷ Delivery.value (numeric 2 1) 31
      ∷ []
unfolding data_change
values_received = refl

events_received :
    new_events {Value = ℕ} ((2, 8 ∷ []) ∷ []) two.monitored_items
    ≡ ok ((numeric 2 10, FieldValue.received message 8 ∷ []) ∷ [])
unfolding new_events
events_received = refl

-- An event for a handle that is not known any more.
late_event : new_events {Value = ℕ} ((7, 8 ∷ []) ∷ []) two.monitored_items ≡ undefined
unfolding new_events
late_event = refl
