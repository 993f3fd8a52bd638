-- ===== src/Subscription/Invariant/Calls.antt =====
-- src/binaryServer/HaSubscription.cpp: the methods and the calls of the SDK keep the invariant.
use opc_ua_server.Prelude.{
  ℕ, suc, Bool, true, false, List, [], ◌∷◌, ◌<◌, ◌≡◌, arith, Bool-cases, inl, inr, Option-cases,
}
use opc_ua_server.Prelude.Result.{Result, ok, throws, undefined, Each, Each-bind}
use opc_ua_server.Ua.Sdk.{UaNodeId}
use opc_ua_server.Subscription.{
  State, Server, Outcome, EventField, NodeAttributes, MonitoredItem, Target, returned, thrown,
  stuck, and_then, with_items, take_handle, new_item, create_items, ensure_subscription,
  delete_subscription, forget, choose,
}
use opc_ua_server.Subscription.Methods.{
  enter, fields_of, prepare, after_prepare, add, finish_remove, remove_chosen, remove, logged,
  subscription_status_changed, ids_of, attributes_of, collect_fields,
}
use opc_ua_server.Subscription.Invariant.{
  IsMatched, Items, IsValid, After, After-and_then, insert-Items, Below-suc, is_some,
}
use opc_ua_server.Subscription.Invariant.Steps.{
  forget-Items, delete_subscription-IsValid, ensure_subscription-IsValid, create_items-IsValid,
  release-IsValid,
}

finish_remove-IsValid :
    (srv : Server) (s : State) (r : Result (List (ℕ × MonitoredItem) × Bool))
    → IsValid s
    → Each (λ out. Items s.client_handle_counter out.0) r
    → After IsValid (finish_remove srv s r)
unfolding finish_remove
finish_remove-IsValid srv s (ok (ms, false)) v i = release-IsValid srv (with_items ms s) (v.0, i)
finish_remove-IsValid srv s (ok (ms, true)) v i = (v.0, i)
finish_remove-IsValid srv s (throws e) v i = tt
finish_remove-IsValid srv s undefined v i = tt

remove_chosen-IsValid :
    (srv : Server) (cs : List (ℕ × ℕ)) (s : State)
    → IsValid s
    → After IsValid (remove_chosen srv cs s)
unfolding remove_chosen
remove_chosen-IsValid srv [] s v = v
remove_chosen-IsValid srv (c ∷ cs) s v = elim (Option-cases s.subscription) [
  | inl e ↦ rw (e, remove_chosen) tt
  | inr (i, e) ↦
      rw (e, remove_chosen)
        (elim (Option-cases (srv.delete_items i (ids_of (c ∷ cs)))) [
          | inl f ↦ rw (f, ids_of) v
          | inr (answers, f) ↦
              rw (f, ids_of)
                (finish_remove-IsValid srv s (forget (c ∷ cs) answers s.monitored_items) v
                  (forget-Items s.client_handle_counter (c ∷ cs) answers s.monitored_items v.1))
        ])
]

enter-IsValid :
    (s : State) (h : ℕ) (x : MonitoredItem)
    → IsValid s
    → (h ≡ s.client_handle_counter) × (h < 2147483647)
    → IsMatched (h, x)
    → IsValid (enter h x s)
unfolding enter
enter-IsValid s h x (b, (a, c, m)) (e, l) f = (
  omega (arith, l),
  insert-Items (suc h) h x s.monitored_items (a, Below-suc h s.monitored_items (rw e c), m)
      (omega arith) f,
)

logged-IsValid : (o : Outcome) → After IsValid o → After IsValid (logged o)
unfolding logged
logged-IsValid (returned s) v = v
logged-IsValid (thrown s e) v = v
logged-IsValid stuck v = tt

module _ (same : UaNodeId → UaNodeId → Bool) where
  fields_of-matched :
      (a : NodeAttributes) (m : List (UaNodeId × List EventField))
      → Each (λ fs. is_some fs ≡ a.is_object_type) (fields_of same a m)
  unfolding fields_of
  fields_of-matched a m = ground arith

  take_handle-free :
      (s : State) → Each (λ h. (h ≡ s.client_handle_counter) × (h < 2147483647)) (take_handle s)
  unfolding take_handle
  take_handle-free s = ground arith

  prepare-IsValid :
      (attrs : List NodeAttributes) (m : List (UaNodeId × List EventField)) (s : State)
      → IsValid s
      → Each (λ out. IsValid out.0) (prepare same attrs m s)
  unfolding prepare
  prepare-IsValid [] m s v = v
  prepare-IsValid (a ∷ attrs) m s v =
      Each-bind (λ fs. is_some fs ≡ a.is_object_type) (λ out. IsValid out.0) (fields_of same a m) _
        (fields_of-matched a m)
        (λ fs f.
          Each-bind (λ h. (h ≡ s.client_handle_counter) × (h < 2147483647)) (λ out. IsValid out.0)
            (take_handle s) _ (take_handle-free s)
            (λ h l.
              Each-bind (λ out. IsValid out.0) (λ out. IsValid out.0)
                (prepare same attrs m (enter h (new_item a fs) s)) _
                (prepare-IsValid attrs m (enter h (new_item a fs) s)
                  (enter-IsValid s h (new_item a fs) v l f))
                (λ out u. u)))

  after_prepare-IsValid :
      (srv : Server) (r : Result (State × List (ℕ × Target)))
      → Each (λ out. IsValid out.0) r
      → After IsValid (after_prepare srv r)
  unfolding after_prepare
  after_prepare-IsValid srv (ok (s, rs)) v =
      After-and_then IsValid IsValid (ensure_subscription srv s) (create_items srv rs)
        (ensure_subscription-IsValid srv s v) (λ t u. u) (λ t u. create_items-IsValid srv rs t u)
  after_prepare-IsValid srv (throws e) v = tt
  after_prepare-IsValid srv undefined v = tt

  pub add-IsValid :
      (srv : Server) (attrs : List NodeAttributes) (m : List (UaNodeId × List EventField))
      (s : State)
      → IsValid s
      → After IsValid (add same srv attrs m s)
  unfolding add
  add-IsValid srv [] m s v = v
  add-IsValid srv (a ∷ attrs) m s v =
      after_prepare-IsValid srv (prepare same (a ∷ attrs) m s) (prepare-IsValid (a ∷ attrs) m s v)

  pub remove-IsValid :
      (srv : Server) (ns : List UaNodeId) (s : State)
      → IsValid s
      → After IsValid (remove same srv ns s)
  unfolding remove
  remove-IsValid srv ns s v = remove_chosen-IsValid srv (choose same ns s.monitored_items) s v

  pub status-IsValid :
      (srv : Server) (is_invalid : Bool) (s : State)
      → IsValid s
      → After IsValid (subscription_status_changed same srv is_invalid s)
  unfolding subscription_status_changed
  status-IsValid srv is_invalid s v = elim (Option-cases s.subscription) [
    | inl e ↦ rw (e, subscription_status_changed) tt
    | inr (i, e) ↦
        rw (e, subscription_status_changed)
          (elim (Bool-cases is_invalid) [
            | inl f ↦ rw f (
                logged-IsValid
                  (and_then (delete_subscription srv (with_items [] s)) (
                    add same srv (attributes_of s.monitored_items)
                      (collect_fields same s.monitored_items [])))
                  (After-and_then IsValid IsValid (delete_subscription srv (with_items [] s))
                    (add same srv (attributes_of s.monitored_items)
                      (collect_fields same s.monitored_items []))
                    (delete_subscription-IsValid srv (with_items [] s) (v.0, (tt, tt, tt)))
                    (λ t u. u)
                    (λ t u.
                      add-IsValid srv (attributes_of s.monitored_items)
                        (collect_fields same s.monitored_items []) t u)))
            | inr f ↦ rw f v
          ])
  ]
