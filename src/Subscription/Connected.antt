-- ===== src/Subscription/Connected.antt =====
-- src/binaryServer/HaSubscription.cpp: the pointer to the subscription, which the methods dereference
-- when there are items.
use opc_ua_server.Prelude.{
  ℕ, Bool, true, false, List, [], ◌∷◌, none, ◌≡◌, refl, ◌≢◌, arith, Bool-cases, inl, inr,
  Option-cases,
}
use opc_ua_server.Prelude.Result.{Result, ok, throws, undefined}
use opc_ua_server.Ua.Sdk.{UaNodeId}
use opc_ua_server.Subscription.Handles.{erase_all}
use opc_ua_server.Subscription.{
  State, Server, Outcome, Failure, EventField, NodeAttributes, MonitoredItem, Target, returned,
  thrown, stuck, cannot_add_item, cannot_add_items, and_then, with_items, create_items,
  ensure_subscription, create_subscription, delete_subscription, forget, accept, give_up,
  finish_add, release, choose, handles_of, is_empty,
}
use opc_ua_server.Subscription.Methods.{
  prepare, after_prepare, add, finish_remove, remove_chosen, remove, remove_all, logged,
  subscription_status_changed, ids_of, attributes_of, collect_fields, nodes_of,
}
use opc_ua_server.Subscription.Invariant.{After, After-and_then}
use opc_ua_server.Subscription.Reach.{
  Step, Reach, adds, removes, removes_all, status_changes, here, next, After-state_of,
}

-- There are items only with a subscription.
abbrev pub IsConnected : State → Type 0
IsConnected s = s.subscription ≡ none → s.monitored_items ≡ []

abbrev pub HasSubscription : State → Type 0
HasSubscription s = s.subscription ≢ none

-- A server that creates a subscription when it is asked to.
abbrev pub IsCreating : Server → Type 0
IsCreating srv = srv.create_subscription ≢ none

kept : (s : State) → HasSubscription s → IsConnected s
kept s h e = absurd (h e)

release-IsConnected : (srv : Server) (s : State) → IsConnected s → After IsConnected (release srv s)
unfolding release delete_subscription is_empty
release-IsConnected srv s c = ground arith

give_up-IsConnected :
    (srv : Server) (why : Failure) (hs : List ℕ) (s : State)
    → HasSubscription s
    → After IsConnected (give_up srv why hs s)
unfolding give_up
give_up-IsConnected srv why [] s c = kept s c
give_up-IsConnected srv why (h ∷ hs) s c =
    let left = with_items (erase_all (h ∷ hs) s.monitored_items) s in
    After-and_then IsConnected IsConnected (release srv left) (λ t. thrown t why)
      (release-IsConnected srv left (kept left c)) (λ t u. u) (λ t u. u)

finish_add-IsConnected :
    (srv : Server) (s : State) (r : Result (List (ℕ × MonitoredItem) × (List ℕ × Bool)))
    → HasSubscription s
    → After IsConnected (finish_add srv s r)
unfolding finish_add
finish_add-IsConnected srv s (ok (ms, (hs, false))) c = kept (with_items ms s) c
finish_add-IsConnected srv s (ok (ms, (hs, true))) c =
    give_up-IsConnected srv cannot_add_item hs (with_items ms s) c
finish_add-IsConnected srv s (throws e) c = tt
finish_add-IsConnected srv s undefined c = tt

create_items-IsConnected :
    (srv : Server) (rs : List (ℕ × Target)) (s : State)
    → HasSubscription s
    → After IsConnected (create_items srv rs s)
unfolding create_items
create_items-IsConnected srv rs s c = elim (Option-cases s.subscription) [
  | inl e ↦ absurd (c e)
  | inr (i, e) ↦
      rw (e, create_items)
        (elim (Option-cases (srv.create_items i rs)) [
          | inl f ↦ rw f (give_up-IsConnected srv cannot_add_items (handles_of rs) s c)
          | inr (answers, f) ↦
              rw f
                (finish_add-IsConnected srv s (accept (handles_of rs) answers s.monitored_items) c)
        ])
]

ensure_subscription-HasSubscription :
    (srv : Server) (s : State) → IsCreating srv → After HasSubscription (ensure_subscription srv s)
unfolding ensure_subscription create_subscription
ensure_subscription-HasSubscription srv s c = ground arith

finish_remove-IsConnected :
    (srv : Server) (s : State) (r : Result (List (ℕ × MonitoredItem) × Bool))
    → HasSubscription s
    → After IsConnected (finish_remove srv s r)
unfolding finish_remove
finish_remove-IsConnected srv s (ok (ms, false)) c =
    release-IsConnected srv (with_items ms s) (kept (with_items ms s) c)
finish_remove-IsConnected srv s (ok (ms, true)) c = kept (with_items ms s) c
finish_remove-IsConnected srv s (throws e) c = tt
finish_remove-IsConnected srv s undefined c = tt

remove_chosen-IsConnected :
    (srv : Server) (cs : List (ℕ × ℕ)) (s : State)
    → IsConnected s
    → After IsConnected (remove_chosen srv cs s)
unfolding remove_chosen
remove_chosen-IsConnected srv [] s v = v
remove_chosen-IsConnected srv (c ∷ cs) s v = elim (Option-cases s.subscription) [
  | inl e ↦ rw (e, remove_chosen) tt
  | inr (i, e) ↦
      rw (e, remove_chosen)
        (elim (Option-cases (srv.delete_items i (ids_of (c ∷ cs)))) [
          | inl f ↦ rw (f, ids_of) v
          | inr (answers, f) ↦
              rw (f, ids_of)
                (finish_remove-IsConnected srv s (forget (c ∷ cs) answers s.monitored_items)
                  (rw e (λ h. cc)))
        ])
]

logged-IsConnected : (o : Outcome) → After IsConnected o → After IsConnected (logged o)
unfolding logged
logged-IsConnected (returned s) v = v
logged-IsConnected (thrown s e) v = v
logged-IsConnected stuck v = tt

after_prepare-IsConnected :
    (srv : Server) (r : Result (State × List (ℕ × Target)))
    → IsCreating srv
    → After IsConnected (after_prepare srv r)
unfolding after_prepare
after_prepare-IsConnected srv (ok (s, rs)) c =
    After-and_then HasSubscription IsConnected (ensure_subscription srv s) (create_items srv rs)
      (ensure_subscription-HasSubscription srv s c) kept
      (λ t u. create_items-IsConnected srv rs t u)
after_prepare-IsConnected srv (throws e) c = tt
after_prepare-IsConnected srv undefined c = tt

delete_subscription-IsConnected :
    (srv : Server) (s : State)
    → IsConnected s
    → s.monitored_items ≡ []
    → After IsConnected (delete_subscription srv s)
unfolding delete_subscription
delete_subscription-IsConnected srv s v e = ground arith

module _ (same : UaNodeId → UaNodeId → Bool) where
  add-IsConnected :
      (srv : Server) (attrs : List NodeAttributes) (m : List (UaNodeId × List EventField))
      (s : State)
      → IsCreating srv
      → IsConnected s
      → After IsConnected (add same srv attrs m s)
  unfolding add
  add-IsConnected srv [] m s c v = v
  add-IsConnected srv (a ∷ attrs) m s c v =
      after_prepare-IsConnected srv (prepare same (a ∷ attrs) m s) c

  status-IsConnected :
      (srv : Server) (is_invalid : Bool) (s : State)
      → IsCreating srv
      → IsConnected s
      → After IsConnected (subscription_status_changed same srv is_invalid s)
  unfolding subscription_status_changed
  status-IsConnected srv is_invalid s c v = elim (Option-cases s.subscription) [
    | inl e ↦ rw (e, subscription_status_changed) tt
    | inr (i, e) ↦
        rw (e, subscription_status_changed)
          (elim (Bool-cases is_invalid) [
            | inl f ↦ rw f (
                logged-IsConnected
                  (and_then (delete_subscription srv (with_items [] s)) (
                    add same srv (attributes_of s.monitored_items)
                      (collect_fields same s.monitored_items [])))
                  (After-and_then IsConnected IsConnected
                    (delete_subscription srv (with_items [] s))
                    (add same srv (attributes_of s.monitored_items)
                      (collect_fields same s.monitored_items []))
                    (delete_subscription-IsConnected srv (with_items [] s) (λ g. refl) refl)
                    (λ t u. u)
                    (λ t u.
                      add-IsConnected srv (attributes_of s.monitored_items)
                        (collect_fields same s.monitored_items []) t c u)))
            | inr f ↦ rw f v
          ])
  ]

  Step-IsConnected :
      {srv : Server} {s t : State}
      → IsCreating srv
      → Step same srv s t
      → IsConnected s
      → IsConnected t
  unfolding remove_all remove
  Step-IsConnected {srv} {s} {t} c (adds attrs m e) v =
      After-state_of IsConnected (add same srv attrs m s) t (add-IsConnected srv attrs m s c v) e
  Step-IsConnected {srv} {s} {t} c (removes ns e) v =
      After-state_of IsConnected (remove same srv ns s) t
        (remove_chosen-IsConnected srv (choose same ns s.monitored_items) s v) e
  Step-IsConnected {srv} {s} {t} c (removes_all e) v =
      After-state_of IsConnected (remove_all same srv s) t
        (remove_chosen-IsConnected srv (choose same (nodes_of s.monitored_items) s.monitored_items)
          s v)
        e
  Step-IsConnected {srv} {s} {t} c (status_changes b e) v =
      After-state_of IsConnected (subscription_status_changed same srv b s) t
        (status-IsConnected srv b s c v) e

  pub Reach-IsConnected : {s : State} → Reach same IsCreating s → IsConnected s
  Reach-IsConnected here = λ e. refl
  Reach-IsConnected (next srv k r st) = Step-IsConnected k st (Reach-IsConnected r)
