-- ===== src/Subscription/Adding/Finish.antt =====
-- src/binaryServer/HaSubscription.cpp: `add` for any nodes and any answers of the server to them.
use opc_ua_server.Prelude.{
  ℕ, suc, ◌+◌, Bool, true, false, List, [], ◌∷◌, ◌++◌, Option, none, some, All, ◌≡◌, refl, ◌≢◌, ◌<◌,
  arith, if◌then◌else◌, Bool-cases, inl, inr, ◌⊎◌, ap, length, ◌≤◌,
}
use opc_ua_server.Prelude.Result.{ok}
use native.Mathlib.Nat.{add-zero, add-suc, suc-add}
use opc_ua_server.Ua.Sdk.{UaNodeId}
use opc_ua_server.Subscription.Handles.{erase_all}
use opc_ua_server.Subscription.Handles.Order.{Below, insert_last}
use opc_ua_server.Subscription.{
  State, Server, Failure, EventField, NodeAttributes, MonitoredItem, returned, thrown,
  cannot_add_item, and_then, with_items, new_item, ensure_subscription, create_subscription,
  create_items, finish_add, give_up, release, take_handle,
}
use opc_ua_server.Subscription.Methods.{fields_of, prepare, enter, after_prepare, add}
use opc_ua_server.Subscription.Invariant.{IsValid, Below-suc}
use opc_ua_server.Subscription.Adding.{
  Wanted, entries, requests, created, all_created, marked, refused,
}
use opc_ua_server.Subscription.Adding.Answers.{accept-append, erase_all-append}

abbrev pub attrs_of : Wanted → List NodeAttributes
attrs_of [] = []
attrs_of ((a, fs) ∷ xs) = a ∷ attrs_of xs

-- The state with the next handle, the subscription and the items.
abbrev pub state : ℕ → Option ℕ → List (ℕ × MonitoredItem) → State
state c i ms = record { client_handle_counter = c; subscription = i; monitored_items = ms }

pub append_entry :
    (ms : List (ℕ × MonitoredItem)) (e : ℕ × MonitoredItem) (es : List (ℕ × MonitoredItem))
    → (ms ++ e ∷ []) ++ es ≡ ms ++ e ∷ es
append_entry [] e es = refl
append_entry (m ∷ ms) e es = ap (λ xs. m ∷ xs) (append_entry ms e es)

Below-append :
    (n k : ℕ) (x : MonitoredItem) (ms : List (ℕ × MonitoredItem))
    → Below n ms
    → k < n
    → Below n (ms ++ (k, x) ∷ [])
Below-append n k x [] b l = (l, tt)
Below-append n k x (m ∷ ms) b l = (b.0, Below-append n k x ms b.1 l)

append_nil : (ms : List (ℕ × MonitoredItem)) → ms ++ [] ≡ ms
append_nil [] = refl
append_nil (m ∷ ms) = ap (λ xs. m ∷ xs) (append_nil ms)

pub take_handle_free :
    (s : State) → s.client_handle_counter < 2147483647 → take_handle s ≡ ok s.client_handle_counter
unfolding take_handle
take_handle_free s l = ground arith

module _ (same : UaNodeId → UaNodeId → Bool) (m : List (UaNodeId × List EventField)) where
  pub prepare-entries :
      (xs : Wanted) (c : ℕ) (i : Option ℕ) (ms : List (ℕ × MonitoredItem))
      → All (λ x. fields_of same x.0 m ≡ ok x.1) xs
      → Below c ms
      → c + length xs ≤ 2147483647
      → prepare same (attrs_of xs) m (state c i ms)
        ≡ ok (state (c + length xs) i (ms ++ entries c xs), requests c xs)
  unfolding prepare enter
  prepare-entries [] c i ms f b l = rw (add-zero, append_nil ms) refl
  prepare-entries ((a, fs) ∷ xs) c i ms (f, g) b l =
      rw
        (
          f,
          take_handle_free (state c i ms) (omega arith),
          insert_last c (new_item a fs) ms b,
          prepare-entries xs (suc c) i (ms ++ (c, new_item a fs) ∷ []) g
              (Below-append (suc c) c (new_item a fs) ms (Below-suc c ms b) (omega arith))
              (omega arith),
          add-suc,
          suc-add,
          append_entry ms (c, new_item a fs) (entries (suc c) xs),
        )
        refl

marked_all :
    (c : ℕ) (xs : Wanted) (rs : List (Option ℕ))
    → all_created rs ≡ true
    → length rs ≡ length xs
    → marked c xs rs ≡ created c xs rs
marked_all c [] rs a l = refl
marked_all c (x ∷ xs) [] a l = absurd (omega arith)
marked_all c (x ∷ xs) (none ∷ rs) a l = absurd (cc)
marked_all c (x ∷ xs) (some i ∷ rs) a l =
    ap (λ ms. (c, record { id = i; node_attr = x.0; event_fields = x.1 }) ∷ ms)
      (marked_all (suc c) xs rs a (omega arith))

refused_some : (c : ℕ) (rs : List (Option ℕ)) → all_created rs ≡ false → refused c rs ≢ []
refused_some c [] a = absurd (cc)
refused_some c (none ∷ rs) a = λ e. cc
refused_some c (some i ∷ rs) a = refused_some (suc c) rs a

give_up_some :
    (srv : Server) (why : Failure) (hs : List ℕ) (s : State)
    → hs ≢ []
    → give_up srv why hs s
      ≡ and_then (release srv (with_items (erase_all hs s.monitored_items) s)) (λ t. thrown t why)
unfolding give_up
give_up_some srv why [] s n = absurd (n refl)
give_up_some srv why (h ∷ hs) s n = refl

module _ (srv : Server) (i : ℕ) (xs : Wanted) where
  create_items-created :
      (answers : List (Option ℕ)) (c : ℕ) (ms : List (ℕ × MonitoredItem))
      → Below c ms
      → length answers ≡ length xs
      → srv.create_items i (requests c xs) ≡ some answers
      → let t = state (c + length xs) (some i) (ms ++ created c xs answers) in
        create_items srv (requests c xs) (state (c + length xs) (some i) (ms ++ entries c xs)) ≡ (
          if all_created answers
          then returned t
          else and_then (release srv t) (λ u. thrown u cannot_add_item))
  unfolding create_items finish_add
  create_items-created answers c ms b l e = elim (Bool-cases (all_created answers)) [
    | inl a ↦ rw (e, accept-append ms c xs answers b l, a, marked_all c xs answers a l) refl
    | inr a ↦
        rw
          (
            e,
            accept-append ms c xs answers b l,
            a,
            give_up_some srv cannot_add_item (refused c answers)
                (state (c + length xs) (some i) (ms ++ marked c xs answers))
                (refused_some c answers a),
            erase_all-append ms c xs answers b l,
          )
          refl
  ]

-- Before the call there is a subscription, or the server creates one.
abbrev pub Subscribed : Server → State → ℕ → Type 0
Subscribed srv s i =
    (s.subscription ≡ some i) ⊎ ((s.subscription ≡ none) × (srv.create_subscription ≡ some i))

ensure_subscription-some :
    (srv : Server) (s : State) (i c : ℕ) (ms : List (ℕ × MonitoredItem))
    → Subscribed srv s i
    → ensure_subscription srv (state c s.subscription ms) ≡ returned (state c (some i) ms)
unfolding ensure_subscription create_subscription
ensure_subscription-some srv s i c ms e = ground arith

-- For a list of nodes that is not empty, of which each event type has its fields, when the handles do
-- not pass the largest `int`, there is a subscription or the server creates one, and it answers with
-- a result for each item: `add` leaves the items it had before, in their order, and after them
-- exactly the items that the server has created, each under its own handle with the server's number.
-- It returns when all are created; else it throws, after the deletion of the subscription if no item
-- is left at all. The handles of refused items are not used again.
pub add-created :
    (same : UaNodeId → UaNodeId → Bool) (m : List (UaNodeId × List EventField)) (srv : Server)
    (s : State) (i : ℕ) (x : NodeAttributes × Option (List EventField)) (xs : Wanted)
    (answers : List (Option ℕ))
    → IsValid s
    → All (λ y. fields_of same y.0 m ≡ ok y.1) (x ∷ xs)
    → s.client_handle_counter + length (x ∷ xs) ≤ 2147483647
    → Subscribed srv s i
    → srv.create_items i (requests s.client_handle_counter (x ∷ xs)) ≡ some answers
    → length answers ≡ length (x ∷ xs)
    → let c = s.client_handle_counter in
      let t =
        state (c + length (x ∷ xs)) (some i) (s.monitored_items ++ created c (x ∷ xs) answers) in
      add same srv (attrs_of (x ∷ xs)) m s ≡ (
        if all_created answers
        then returned t
        else and_then (release srv t) (λ u. thrown u cannot_add_item))
unfolding add after_prepare
add-created same m srv s i x xs answers v f l u e k =
    let c = s.client_handle_counter in
    rw
      (
        prepare-entries same m (x ∷ xs) c s.subscription s.monitored_items f v.1.1 l,
        ensure_subscription-some srv s i (c + length (x ∷ xs))
            (s.monitored_items ++ entries c (x ∷ xs)) u,
        and_then,
      )
      (create_items-created srv i (x ∷ xs) answers c s.monitored_items v.1.1 k e)
