-- ===== src/Subscription/Invariant/Steps.antt =====
-- src/binaryServer/HaSubscription.cpp: each method keeps the invariant, whatever the server answers.
use opc_ua_server.Prelude.{
  ℕ, Bool, true, false, List, [], ◌∷◌, Option, none, some, arith, Bool-cases, inl, inr,
  Option-cases,
}
use opc_ua_server.Prelude.Result.{Result, ok, throws, undefined, Each, Each-fmap}
use opc_ua_server.Subscription.Handles.{lookup, erase, erase_all}
use opc_ua_server.Subscription.{
  State, Server, Failure, MonitoredItem, Target, thrown, cannot_add_item, cannot_add_items,
  with_items, set_id, accept, give_up, finish_add, create_items, ensure_subscription,
  create_subscription, delete_subscription, forget, handles_of, release, is_empty,
}
use opc_ua_server.Subscription.Invariant.{
  Items, IsValid, After, After-and_then, erase-Items, erase_all-Items, set_id-Items,
}

pub accept-Items :
    (n : ℕ) (hs : List ℕ) (rs : List (Option ℕ)) (ms : List (ℕ × MonitoredItem))
    → Items n ms
    → Each (λ out. Items n out.0) (accept hs rs ms)
unfolding accept
accept-Items n hs [] ms v = v
accept-Items n [] (r ∷ rs) ms v = tt
accept-Items n (h ∷ hs) (some i ∷ rs) ms v = elim (Option-cases (lookup h ms)) [
  | inl e ↦ rw (e, accept) tt
  | inr (x, e) ↦
      rw (e, accept) (accept-Items n hs rs (set_id h i x ms) (set_id-Items n h i x ms v e))
]
accept-Items n (h ∷ hs) (none ∷ rs) ms v = elim (Option-cases (lookup h ms)) [
  | inl e ↦ rw (e, accept) tt
  | inr (x, e) ↦
      rw (e, accept)
        (Each-fmap (λ out. Items n out.0) (λ out. (out.0, (h ∷ out.1.0, true))) (accept hs rs ms)
          (accept-Items n hs rs ms v))
]

pub forget-Items :
    (n : ℕ) (cs : List (ℕ × ℕ)) (rs : List Bool) (ms : List (ℕ × MonitoredItem))
    → Items n ms
    → Each (λ out. Items n out.0) (forget cs rs ms)
unfolding forget
forget-Items n cs [] ms v = v
forget-Items n [] (r ∷ rs) ms v = tt
forget-Items n ((h, i) ∷ cs) (true ∷ rs) ms v = elim (Option-cases (lookup h ms)) [
  | inl e ↦ rw (e, forget) (forget-Items n cs rs ms v)
  | inr (x, e) ↦ rw (e, forget) (forget-Items n cs rs (erase h ms) (erase-Items n h ms v))
]
forget-Items n ((h, i) ∷ cs) (false ∷ rs) ms v = elim (Option-cases (lookup h ms)) [
  | inl e ↦ rw (e, forget) (forget-Items n cs rs ms v)
  | inr (x, e) ↦
      rw (e, forget)
        (Each-fmap (λ out. Items n out.0) (λ out. (out.0, true)) (forget cs rs ms)
          (forget-Items n cs rs ms v))
]

pub delete_subscription-IsValid :
    (srv : Server) (s : State) → IsValid s → After IsValid (delete_subscription srv s)
unfolding delete_subscription
delete_subscription-IsValid srv s v = ground arith

pub ensure_subscription-IsValid :
    (srv : Server) (s : State) → IsValid s → After IsValid (ensure_subscription srv s)
unfolding ensure_subscription create_subscription
ensure_subscription-IsValid srv s v = ground arith

pub release-IsValid : (srv : Server) (s : State) → IsValid s → After IsValid (release srv s)
unfolding release
release-IsValid srv s v = elim (Bool-cases (is_empty s.monitored_items)) [
  | inl e ↦ rw e (delete_subscription-IsValid srv s v)
  | inr e ↦ rw e v
]

pub give_up-IsValid :
    (srv : Server) (why : Failure) (hs : List ℕ) (s : State)
    → IsValid s
    → After IsValid (give_up srv why hs s)
unfolding give_up
give_up-IsValid srv why [] s v = v
give_up-IsValid srv why (h ∷ hs) s v =
    let left = with_items (erase_all (h ∷ hs) s.monitored_items) s in
    After-and_then IsValid IsValid (release srv left) (λ t. thrown t why)
      (release-IsValid srv left
        (v.0, erase_all-Items s.client_handle_counter (h ∷ hs) s.monitored_items v.1))
      (λ t u. u) (λ t u. u)

pub finish_add-IsValid :
    (srv : Server) (s : State) (r : Result (List (ℕ × MonitoredItem) × (List ℕ × Bool)))
    → IsValid s
    → Each (λ out. Items s.client_handle_counter out.0) r
    → After IsValid (finish_add srv s r)
unfolding finish_add
finish_add-IsValid srv s (ok (ms, (hs, false))) v i = (v.0, i)
finish_add-IsValid srv s (ok (ms, (hs, true))) v i =
    give_up-IsValid srv cannot_add_item hs (with_items ms s) (v.0, i)
finish_add-IsValid srv s (throws e) v i = tt
finish_add-IsValid srv s undefined v i = tt

pub create_items-IsValid :
    (srv : Server) (rs : List (ℕ × Target)) (s : State)
    → IsValid s
    → After IsValid (create_items srv rs s)
unfolding create_items
create_items-IsValid srv rs s v = elim (Option-cases s.subscription) [
  | inl e ↦ rw (e, create_items) tt
  | inr (i, e) ↦
      rw (e, create_items)
        (elim (Option-cases (srv.create_items i rs)) [
          | inl f ↦ rw f (give_up-IsValid srv cannot_add_items (handles_of rs) s v)
          | inr (answers, f) ↦ rw f (
              finish_add-IsValid srv s (accept (handles_of rs) answers s.monitored_items) v (
                accept-Items s.client_handle_counter (handles_of rs) answers s.monitored_items v.1))
        ])
]
