-- ===== src/Subscription/Failing.antt =====
-- src/binaryServer/HaSubscription.cpp: the items after a failed creation of the subscription.
use opc_ua_server.Prelude.{
  ℕ, suc, arith, ◌+◌, sym, ◌∙◌, ◌≤◌, Bool, true, List, [], ◌∷◌, ◌++◌, none, All, ◌≡◌, refl, ◌≢◌,
  inl, inr, Option-cases, length,
}
use opc_ua_server.Prelude.Result.{ok}
use opc_ua_server.Ua.Sdk.{UaNodeId}
use opc_ua_server.Subscription.Handles.Order.{Below}
use opc_ua_server.Subscription.{
  State, Server, EventField, MonitoredItem, thrown, stuck, cannot_create_subscription, and_then,
  ensure_subscription, create_subscription, choose, new_item, first_item, add_chosen,
}
use opc_ua_server.Subscription.Adding.{Wanted, entries}
use opc_ua_server.Subscription.Adding.Finish.{attrs_of, state, append_entry, prepare-entries}
use opc_ua_server.Subscription.Methods.{
  prepare, after_prepare, add, remove_chosen, remove, fields_of,
}

module _ (same : UaNodeId → UaNodeId → Bool) where
  remove_stuck :
      (srv : Server) (n : UaNodeId) (s : State)
      → s.subscription ≡ none
      → first_item same n s.monitored_items ≢ none
      → remove same srv (n ∷ []) s ≡ stuck
  unfolding remove choose add_chosen remove_chosen
  remove_stuck srv n s e h = elim (Option-cases (first_item same n s.monitored_items)) [
    | inl a ↦ absurd (h a)
    | inr (c, a) ↦ rw (a, e) refl
  ]

  -- A node of an item is found, whatever stands around the item.
  first_item-found :
      (h : ℕ) (x : MonitoredItem) (ms rest : List (ℕ × MonitoredItem))
      → same x.node_attr.node_id x.node_attr.node_id ≡ true
      → first_item same x.node_attr.node_id (ms ++ (h, x) ∷ rest) ≢ none
  unfolding first_item
  first_item-found h x [] rest r = rw r (λ e. cc)
  first_item-found h x ((k, y) ∷ ms) rest r =
      let found = first_item-found h x ms rest r in ground arith

  -- The nodes that are equal to themselves.
  abbrev pub AllSame : Wanted → Type 0
  AllSame xs = All (λ x. same x.0.node_id x.0.node_id ≡ true) xs

  All-stuck :
      (xs : Wanted) (c : ℕ) (ms : List (ℕ × MonitoredItem)) (s : State)
      → s.subscription ≡ none
      → s.monitored_items ≡ ms ++ entries c xs
      → AllSame xs
      → All (λ x. (srv : Server) → remove same srv (x.0.node_id ∷ []) s ≡ stuck) xs
  All-stuck [] c ms s e f r = tt
  All-stuck ((a, fs) ∷ xs) c ms s e f r = (
    λ srv.
        remove_stuck srv a.node_id s e
          (rw f (first_item-found c (new_item a fs) ms (entries (suc c) xs) r.0)),
    All-stuck xs (suc c) (ms ++ (c, new_item a fs) ∷ []) s e
        (f ∙ sym (append_entry ms (c, new_item a fs) (entries (suc c) xs))) r.1,
  )

  add_step :
      (xs : Wanted) (srv : Server) (m : List (UaNodeId × List EventField)) (s : State)
      → xs ≢ []
      → add same srv (attrs_of xs) m s ≡ after_prepare srv (prepare same (attrs_of xs) m s)
  unfolding add
  add_step [] srv m s n = absurd (n refl)
  add_step (x ∷ xs) srv m s n = refl

  -- When the server refuses to create the subscription, `add` of one or more nodes throws, and the items of all of
  -- them stay without a subscription, under the handles that follow on the counter, after the items there
  -- were; a `remove` of any one of these nodes after that dereferences the null pointer to the subscription,
  -- whatever the server would answer.
  pub add-failed_creation :
      (xs : Wanted) (c : ℕ) (ms : List (ℕ × MonitoredItem)) (srv : Server)
      (m : List (UaNodeId × List EventField))
      → xs ≢ []
      → AllSame xs
      → All (λ x. fields_of same x.0 m ≡ ok x.1) xs
      → Below c ms
      → c + length xs ≤ 2147483647
      → srv.create_subscription ≡ none
      → let t = state (c + length xs) none (ms ++ entries c xs) in
        (add same srv (attrs_of xs) m (state c none ms) ≡ thrown t cannot_create_subscription)
        × All (λ x. (other : Server) → remove same other (x.0.node_id ∷ []) t ≡ stuck) xs
  unfolding after_prepare ensure_subscription create_subscription and_then
  add-failed_creation xs c ms srv m n r f b l e = (
    rw (add_step xs srv m (state c none ms) n, prepare-entries same m xs c none ms f b l, e) refl,
    All-stuck xs c ms (state (c + length xs) none (ms ++ entries c xs)) refl refl r,
  )
