-- ===== src/Subscription/Reach.antt =====
-- src/binaryServer/HaSubscription.cpp: the life of a subscription, as the calls of its methods and of
-- the SDK's thread in any order, whatever the server answers.
use opc_ua_server.Prelude.{Bool, List, some, ◌≡◌, arith}
use opc_ua_server.Ua.Sdk.{UaNodeId}
use opc_ua_server.Subscription.{
  State, Server, Outcome, EventField, NodeAttributes, returned, thrown, stuck, start, state_of,
}
use opc_ua_server.Subscription.Methods.{
  add, remove, remove_all, subscription_status_changed, nodes_of,
}
use opc_ua_server.Subscription.Invariant.{IsValid, After}
use opc_ua_server.Subscription.Invariant.Calls.{add-IsValid, remove-IsValid, status-IsValid}

-- A call, with the server that answers it, from a state to the one that it leaves.
pub data Step (same : UaNodeId → UaNodeId → Bool) (srv : Server) (s t : State) : Type 0 where
  adds :
      (attrs : List NodeAttributes) (m : List (UaNodeId × List EventField))
      → state_of (add same srv attrs m s) ≡ some t
      → Step same srv s t
  removes : (ns : List UaNodeId) → state_of (remove same srv ns s) ≡ some t → Step same srv s t
  removes_all : state_of (remove_all same srv s) ≡ some t → Step same srv s t
  status_changes :
      (is_invalid : Bool)
      → state_of (subscription_status_changed same srv is_invalid s) ≡ some t
      → Step same srv s t

-- The states of a subscription whose servers are all of a kind.
pub data Reach (same : UaNodeId → UaNodeId → Bool) (Kind : Server → Type 0) : State → Type 0 where
  here : Reach same Kind start
  next :
      {s t : State} (srv : Server)
      → Kind srv
      → Reach same Kind s
      → Step same srv s t
      → Reach same Kind t

pub After-state_of {κ} :
    (P : State → Type κ) (o : Outcome) (t : State) → After P o → state_of o ≡ some t → P t
unfolding state_of
After-state_of P (returned s) t h e = let q : s ≡ t = cc in rw (← q) h
After-state_of P (thrown s x) t h e = let q : s ≡ t = cc in rw (← q) h
After-state_of P stuck t h e = absurd (cc)

module _ (same : UaNodeId → UaNodeId → Bool) where
  Step-IsValid : {srv : Server} {s t : State} → Step same srv s t → IsValid s → IsValid t
  unfolding remove_all
  Step-IsValid {srv} {s} {t} (adds attrs m e) v =
      After-state_of IsValid (add same srv attrs m s) t (add-IsValid same srv attrs m s v) e
  Step-IsValid {srv} {s} {t} (removes ns e) v =
      After-state_of IsValid (remove same srv ns s) t (remove-IsValid same srv ns s v) e
  Step-IsValid {srv} {s} {t} (removes_all e) v =
      After-state_of IsValid (remove_all same srv s) t
        (remove-IsValid same srv (nodes_of s.monitored_items) s v) e
  Step-IsValid {srv} {s} {t} (status_changes b e) v =
      After-state_of IsValid (subscription_status_changed same srv b s) t
        (status-IsValid same srv b s v) e

  -- After any calls, whatever the servers answer: the counter of the client handles has not passed the
  -- largest `int`, the handles of the monitored items are increasing and below the counter, so that no
  -- two items share one and the next is free, and exactly the items of object types have event fields.
  pub Reach-IsValid : (Kind : Server → Type 0) (s : State) → Reach same Kind s → IsValid s
  Reach-IsValid Kind s here = (omega arith, (tt, tt, tt))
  Reach-IsValid Kind t (next srv k r st) = Step-IsValid st (Reach-IsValid Kind _ r)
