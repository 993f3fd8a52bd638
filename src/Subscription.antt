-- ===== src/Subscription.antt =====
-- src/binaryServer/HaSubscription.cpp: a subscription of the client at a remote server, with the items
-- it monitors. The server's answers are a parameter; a status is `true` when it is good.
pub mod Handles
pub mod Methods
pub mod Invariant
pub mod Reach
pub mod Connected
pub mod Removal
pub mod Adding
pub mod Emptying
pub mod Failing
pub mod RoundTrip
mod Tests
use opc_ua_server.Prelude.{
  ℕ, suc, Bool, true, false, ◌==◌, ◌∷◌, [], List, Option, none, some, Text, if◌then◌else◌, ltb, map,
}
use opc_ua_server.Prelude.Result.{Result, ok, throws, undefined, ◌>>=◌, fmap}
use opc_ua_server.Ua.Sdk.{UaNodeId}
use opc_ua_server.EventTypes.{find, assign}
use opc_ua_server.Subscription.Handles.{insert, lookup, erase, erase_all}

-- What the code uses of a client's EventField: its name, and whether it has an exception.
pub record EventField : Type 0 where
  pub qualified_name : Text
  pub has_exception : Bool

-- What it uses of NodeAttributes: the node, and whether its class is that of an object type.
pub record NodeAttributes : Type 0 where
  pub node_id : UaNodeId
  pub is_object_type : Bool

pub record MonitoredItem : Type 0 where
  pub id : ℕ
  pub node_attr : NodeAttributes
  pub event_fields : Option (List EventField)

pub record State : Type 0 where
  pub client_handle_counter : ℕ
  pub subscription : Option ℕ
  pub monitored_items : List (ℕ × MonitoredItem)

-- The request to monitor the value of a variable, or the events of a type with the names selected.
pub data Target : Type 0 where
  value_of : UaNodeId → Target
  events_of : UaNodeId → List Text → Target

-- The server's answers to the calls of the session and of a subscription with an id. A null answer
-- is a bad status, of the call or of the item.
pub record Server : Type 0 where
  pub create_subscription : Option ℕ
  pub create_items : ℕ → List (ℕ × Target) → Option (List (Option ℕ))
  pub delete_items : ℕ → List ℕ → Option (List Bool)
  pub delete_subscription : ℕ → Bool

-- The exceptions by the place that throws them.
pub data Failure : Type 0 where
  cannot_create_subscription cannot_delete_subscription : Failure
  cannot_add_item cannot_add_items cannot_remove_item cannot_remove_items : Failure

-- What a method leaves: it returns or throws in a state, or it dereferences a null pointer, an iterator
-- at the end or an array out of bounds, or a number overflows.
pub data Outcome : Type 0 where
  returned : State → Outcome
  thrown : State → Failure → Outcome
  stuck : Outcome

unfoldable pub and_then : Outcome → (State → Outcome) → Outcome
and_then (returned s) next = next s
and_then (thrown s e) next = thrown s e
and_then stuck next = stuck

unfoldable pub state_of : Outcome → Option State
state_of (returned s) = some s
state_of (thrown s e) = some s
state_of stuck = none

abbrev pub start : State
start = record { client_handle_counter = 1; subscription = none; monitored_items = [] }

abbrev pub with_items : List (ℕ × MonitoredItem) → State → State
with_items ms s = record s { monitored_items = ms }

abbrev pub with_subscription : Option ℕ → State → State
with_subscription i s = record s { subscription = i }

unfoldable pub create_subscription : Server → State → Outcome
create_subscription srv s = elim srv.create_subscription [
  | some i ↦ returned (with_subscription (some i) s)
  | none ↦ thrown (with_subscription none s) cannot_create_subscription
]

unfoldable pub delete_subscription : Server → State → Outcome
delete_subscription srv s = elim s.subscription [
  | none ↦ returned s
  | some i ↦
      if srv.delete_subscription i
      then returned (with_subscription none s)
      else thrown s cannot_delete_subscription
]

-- clientHandleCounter++ on an `int`.
unfoldable pub take_handle : State → Result ℕ
take_handle s =
    if ltb s.client_handle_counter 2147483647 then ok s.client_handle_counter else undefined

names : List EventField → List Text
names [] = []
names (f ∷ fs) = f.qualified_name ∷ names fs

unfoldable pub target_of : NodeAttributes → Option (List EventField) → Target
unfolding names
target_of a none = value_of a.node_id
target_of a (some fs) = events_of a.node_id (names fs)

unfoldable pub handles_of : List (ℕ × Target) → List ℕ
handles_of [] = []
handles_of ((h, t) ∷ rs) = h ∷ handles_of rs

abbrev pub new_item : NodeAttributes → Option (List EventField) → MonitoredItem
new_item a fs = record { id = 0; node_attr = a; event_fields = fs }

-- The number of the item, once the server has created it.
unfoldable pub set_id : ℕ → ℕ → MonitoredItem → List (ℕ × MonitoredItem) → List (ℕ × MonitoredItem)
unfolding insert
set_id h i x ms = insert h (record x { id = i }) ms

-- The loop over the results. What is left of addedMonitoredItems, and whether there is an exception.
unfoldable pub accept :
    List ℕ
    → List (Option ℕ)
    → List (ℕ × MonitoredItem)
    → Result (List (ℕ × MonitoredItem) × (List ℕ × Bool))
unfolding lookup set_id
accept hs [] ms = ok (ms, (hs, false))
accept [] (r ∷ rs) ms = undefined
accept (h ∷ hs) (some i ∷ rs) ms = elim (lookup h ms) [
  | none ↦ undefined
  | some x ↦ accept hs rs (set_id h i x ms)
]
accept (h ∷ hs) (none ∷ rs) ms = elim (lookup h ms) [
  | none ↦ undefined
  | some x ↦ fmap (λ out. (out.0, (h ∷ out.1.0, true))) (accept hs rs ms)
]

unfoldable pub is_empty {ℓ} : {A : Type ℓ} → List A → Bool
is_empty [] = true
is_empty (x ∷ xs) = false

-- The end of both methods: the subscription goes with its last item.
unfoldable pub release : Server → State → Outcome
unfolding is_empty delete_subscription
release srv s = if is_empty s.monitored_items then delete_subscription srv s else returned s

-- The part after an exception: the items that are not added go, and an empty subscription.
unfoldable pub give_up : Server → Failure → List ℕ → State → Outcome
unfolding erase_all release and_then
give_up srv why [] s = thrown s why
give_up srv why (h ∷ hs) s =
    and_then (release srv (with_items (erase_all (h ∷ hs) s.monitored_items) s)) (λ t. thrown t why)

unfoldable pub finish_add :
    Server → State → Result (List (ℕ × MonitoredItem) × (List ℕ × Bool)) → Outcome
unfolding give_up
finish_add srv s (ok (ms, (hs, false))) = returned (with_items ms s)
finish_add srv s (ok (ms, (hs, true))) = give_up srv cannot_add_item hs (with_items ms s)
finish_add srv s r = stuck

unfoldable pub create_items : Server → List (ℕ × Target) → State → Outcome
unfolding accept finish_add give_up handles_of
create_items srv rs s = elim s.subscription [
  | none ↦ stuck
  | some i ↦ elim (srv.create_items i rs) [
    | none ↦ give_up srv cannot_add_items (handles_of rs) s
    | some answers ↦ finish_add srv s (accept (handles_of rs) answers s.monitored_items)
  ]
]

unfoldable pub ensure_subscription : Server → State → Outcome
unfolding create_subscription
ensure_subscription srv s = elim s.subscription [
  | none ↦ create_subscription srv s
  | some i ↦ returned s
]

-- The nodes' first items, with their handles and ids.
unfoldable pub first_item :
    (UaNodeId → UaNodeId → Bool) → UaNodeId → List (ℕ × MonitoredItem) → Option (ℕ × ℕ)
first_item same n [] = none
first_item same n ((h, x) ∷ ms) =
    if same n x.node_attr.node_id then some (h, x.id) else first_item same n ms

unfoldable pub add_chosen : Option (ℕ × ℕ) → List (ℕ × ℕ) → List (ℕ × ℕ)
add_chosen none cs = cs
add_chosen (some c) cs = c ∷ cs

unfoldable pub choose :
    (UaNodeId → UaNodeId → Bool) → List UaNodeId → List (ℕ × MonitoredItem) → List (ℕ × ℕ)
unfolding first_item add_chosen
choose same [] ms = []
choose same (n ∷ ns) ms = add_chosen (first_item same n ms) (choose same ns ms)

-- The loop over the results, and whether there is an exception.
unfoldable pub forget :
    List (ℕ × ℕ) → List Bool → List (ℕ × MonitoredItem) → Result (List (ℕ × MonitoredItem) × Bool)
unfolding lookup erase
forget cs [] ms = ok (ms, false)
forget [] (r ∷ rs) ms = undefined
forget ((h, i) ∷ cs) (true ∷ rs) ms = elim (lookup h ms) [
  | none ↦ forget cs rs ms
  | some x ↦ forget cs rs (erase h ms)
]
forget ((h, i) ∷ cs) (false ∷ rs) ms = elim (lookup h ms) [
  | none ↦ forget cs rs ms
  | some x ↦ fmap (λ out. (out.0, true)) (forget cs rs ms)
]
