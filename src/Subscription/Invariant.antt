-- ===== src/Subscription/Invariant.antt =====
-- src/binaryServer/HaSubscription.cpp: what holds of a subscription between two calls.
pub mod Steps
pub mod Calls
use opc_ua_server.Prelude.{
  ℕ, suc, Bool, true, false, List, [], ◌∷◌, Option, none, some, All, ltb, ◌<◌, ◌≤◌, ◌≡◌, refl,
  arith, if◌then◌else◌, Bool-cases, inl, inr,
}
use opc_ua_server.Prelude.Result.{Result, ok, throws, undefined, ◌>>=◌, fmap, Each, Each-bind}
use opc_ua_server.Ua.Sdk.{UaNodeId}
use opc_ua_server.EventTypes.{find}
use opc_ua_server.Subscription.Handles.{insert, lookup, erase, erase_all}
use opc_ua_server.Subscription.Handles.Order.{
  Below, Ascending, insert-All, insert-Ascending, erase-All, erase-Ascending, erase_all-All,
  erase_all-Ascending, lookup-All,
}
use opc_ua_server.Subscription.{
  State, Server, Outcome, Failure, EventField, NodeAttributes, MonitoredItem, Target, returned,
  thrown, stuck, cannot_add_item, cannot_add_items, and_then, with_items, with_subscription,
  take_handle, new_item, set_id, accept, give_up, finish_add, create_items, ensure_subscription,
  create_subscription, delete_subscription, forget, handles_of, release, is_empty, start, state_of,
}
use opc_ua_server.Subscription.Methods.{
  fields_of, prepare, after_prepare, add, finish_remove, remove_chosen, remove, remove_all, logged,
  subscription_status_changed,
}

abbrev pub is_some {ℓ} : {A : Type ℓ} → Option A → Bool
is_some none = false
is_some (some x) = true

-- An item has the fields of an event type exactly when its node is one.
abbrev pub IsMatched : ℕ × MonitoredItem → Type 0
IsMatched e = is_some e.1.event_fields ≡ e.1.node_attr.is_object_type

abbrev pub Items : ℕ → List (ℕ × MonitoredItem) → Type 0
Items n ms = Ascending ms × Below n ms × All IsMatched ms

-- The handles are used once, in the order they are given, and none is given twice.
abbrev pub IsValid : State → Type 0
IsValid s = (s.client_handle_counter ≤ 2147483647) × Items s.client_handle_counter s.monitored_items

-- A predicate of the state that a method leaves.
abbrev pub After {κ} : (State → Type κ) → Outcome → Type κ
After P (returned s) = P s
After P (thrown s e) = P s
After P stuck = Unit

pub After-and_then {κ μ} :
    (P : State → Type κ) (Q : State → Type μ) (o : Outcome) (f : State → Outcome)
    → After P o
    → ((s : State) → P s → Q s)
    → ((s : State) → P s → After Q (f s))
    → After Q (and_then o f)
unfolding and_then
After-and_then P Q (returned s) f h k g = g s h
After-and_then P Q (thrown s e) f h k g = k s h
After-and_then P Q stuck f h k g = tt

pub insert-Items :
    (n h : ℕ) (x : MonitoredItem) (ms : List (ℕ × MonitoredItem))
    → Items n ms
    → h < n
    → IsMatched (h, x)
    → Items n (insert h x ms)
insert-Items n h x ms (a, b, c) l m = (
  insert-Ascending h x ms a,
  insert-All (λ e. e.0 < n) h x ms b l,
  insert-All IsMatched h x ms c m,
)

pub erase-Items : (n h : ℕ) (ms : List (ℕ × MonitoredItem)) → Items n ms → Items n (erase h ms)
erase-Items n h ms (a, b, c) =
    (erase-Ascending h ms a, erase-All (λ e. e.0 < n) h ms b, erase-All IsMatched h ms c)

pub erase_all-Items :
    (n : ℕ) (hs : List ℕ) (ms : List (ℕ × MonitoredItem)) → Items n ms → Items n (erase_all hs ms)
erase_all-Items n hs ms (a, b, c) = (
  erase_all-Ascending hs ms a,
  erase_all-All (λ e. e.0 < n) hs ms b,
  erase_all-All IsMatched hs ms c,
)

pub Below-suc : (n : ℕ) (ms : List (ℕ × MonitoredItem)) → Below n ms → Below (suc n) ms
Below-suc n [] h = tt
Below-suc n (e ∷ ms) h = (omega (arith, h.0), Below-suc n ms h.1)

pub set_id-Items :
    (n h i : ℕ) (x : MonitoredItem) (ms : List (ℕ × MonitoredItem))
    → Items n ms
    → lookup h ms ≡ some x
    → Items n (set_id h i x ms)
unfolding set_id
set_id-Items n h i x ms (a, b, c) e =
    insert-Items n h (record x { id = i }) ms (a, b, c) (lookup-All (λ e. e.0 < n) h x ms b e)
      (lookup-All IsMatched h x ms c e)
