-- ===== src/Subscription/Removal.antt =====
-- src/binaryServer/HaSubscription.cpp: remove.
use opc_ua_server.Prelude.{
  ℕ, suc, Bool, true, false, List, [], ◌∷◌, none, some, ◌≡◌, refl, ◌≢◌, arith, inl, inr,
  Option-cases, ap, length, ◌≤◌,
}
use opc_ua_server.Prelude.Result.{ok}
use opc_ua_server.Ua.Sdk.{UaNodeId}
use opc_ua_server.Subscription.Handles.{lookup, erase}
use opc_ua_server.Subscription.{
  State, Server, MonitoredItem, stuck, delete_subscription, forget, release, choose, first_item,
  add_chosen,
}
use opc_ua_server.Subscription.Methods.{finish_remove, remove_chosen, remove, ids_of}
use opc_ua_server.Subscription.Reach.{Reach}
use opc_ua_server.Subscription.Connected.{IsCreating, Reach-IsConnected}

-- A server that answers a deletion with no more results than there are items in it.
abbrev pub IsBrief : Server → Type 0
IsBrief srv =
    (i : ℕ) (ids : List ℕ) (answers : List Bool)
    → srv.delete_items i ids ≡ some answers
    → length answers ≤ length ids

forget_ok :
    (cs : List (ℕ × ℕ)) (rs : List Bool) (ms : List (ℕ × MonitoredItem))
    → length rs ≤ length cs
    → (out : List (ℕ × MonitoredItem) × Bool) × (forget cs rs ms ≡ ok out)
unfolding forget
forget_ok cs [] ms l = ((ms, false), refl)
forget_ok [] (r ∷ rs) ms l = absurd (omega arith)
forget_ok ((h, i) ∷ cs) (true ∷ rs) ms l = elim (Option-cases (lookup h ms)) [
  | inl e ↦ rw (e, forget) (forget_ok cs rs ms (omega arith))
  | inr (x, e) ↦ rw (e, forget) (forget_ok cs rs (erase h ms) (omega arith))
]
forget_ok ((h, i) ∷ cs) (false ∷ rs) ms l =
    let (out, q) = forget_ok cs rs ms (omega arith) in
    elim (Option-cases (lookup h ms)) [
      | inl e ↦ rw (e, forget, q) (out, refl)
      | inr (x, e) ↦ rw (e, forget, q) ((out.0, true), refl)
    ]

length-ids_of : (cs : List (ℕ × ℕ)) → length (ids_of cs) ≡ length cs
unfolding ids_of
length-ids_of [] = refl
length-ids_of (c ∷ cs) = ap suc (length-ids_of cs)

finish_remove-moves :
    (srv : Server) (s : State) (out : List (ℕ × MonitoredItem) × Bool)
    → finish_remove srv s (ok out) ≢ stuck
unfolding finish_remove release delete_subscription
finish_remove-moves srv s (ms, true) h = cc
finish_remove-moves srv s (ms, false) h = ground arith

choose-empty : (same : UaNodeId → UaNodeId → Bool) (ns : List UaNodeId) → choose same ns [] ≡ []
unfolding choose first_item add_chosen
choose-empty same [] = refl
choose-empty same (n ∷ ns) = choose-empty same ns

remove_chosen-moves :
    (srv : Server) (cs : List (ℕ × ℕ)) (s : State)
    → IsBrief srv
    → (s.subscription ≡ none → cs ≡ [])
    → remove_chosen srv cs s ≢ stuck
unfolding remove_chosen
remove_chosen-moves srv [] s b c = λ h. cc
remove_chosen-moves srv (d ∷ cs) s b c = elim (Option-cases s.subscription) [
  | inl e ↦ let q = c e in absurd (cc)
  | inr (i, e) ↦
      rw (e, remove_chosen)
        (elim (Option-cases (srv.delete_items i (ids_of (d ∷ cs)))) [
          | inl f ↦ rw (f, ids_of) (λ h. cc)
          | inr (answers, f) ↦
              let l = b i (ids_of (d ∷ cs)) answers f in
              let k = length-ids_of (d ∷ cs) in
              let (out, q) = forget_ok (d ∷ cs) answers s.monitored_items (omega arith) in
              rw (f, ids_of, q) (finish_remove-moves srv s out)
        ])
]

module _ (same : UaNodeId → UaNodeId → Bool) where
  -- After any calls with servers that create a subscription when they are asked to, `remove` with any
  -- node ids dereferences no null pointer and leaves no array, provided that the server answers with
  -- no more results than it was asked for.
  pub remove-moves :
      (s : State) (srv : Server) (ns : List UaNodeId)
      → Reach same IsCreating s
      → IsBrief srv
      → remove same srv ns s ≢ stuck
  unfolding remove
  remove-moves s srv ns r b =
      remove_chosen-moves srv (choose same ns s.monitored_items) s b
        (λ e. rw (Reach-IsConnected same r e) (choose-empty same ns))
