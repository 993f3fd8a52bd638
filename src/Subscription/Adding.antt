-- ===== src/Subscription/Adding.antt =====
-- src/binaryServer/HaSubscription.cpp: what `add` leaves, by the server's answers.
pub mod Answers
pub mod Finish
use opc_ua_server.Prelude.{
  ℕ, zero, suc, ◌+◌, Bool, true, false, List, [], ◌∷◌, ◌++◌, Option, none, some, All, ◌≡◌, refl,
  ◌≢◌, ◌<◌, arith, if◌then◌else◌, Bool-cases, inl, inr, sym, ◌⊎◌, ap, length, ◌≤◌, ltb, ◌∙◌, map,
}
use opc_ua_server.Prelude.Result.{Result, ok, throws, undefined, ◌>>=◌, fmap}
use opc_ua_server.Ua.Sdk.{UaNodeId}
use opc_ua_server.Subscription.Handles.{insert, lookup, erase, erase_all}
use opc_ua_server.Subscription.Handles.Order.{lookup_head, erase_head, Below, insert_last}
use opc_ua_server.Subscription.{
  State, Server, Outcome, EventField, NodeAttributes, MonitoredItem, Target, returned, thrown,
  cannot_add_item, and_then, with_items, accept, handles_of, target_of, new_item, set_id,
}

-- The nodes of a call, with their event fields.
abbrev pub Wanted : Type 0
Wanted = List (NodeAttributes × Option (List EventField))

-- The items that the nodes have from a handle on, before the server is asked.
abbrev pub entries : ℕ → Wanted → List (ℕ × MonitoredItem)
entries c [] = []
entries c ((a, fs) ∷ xs) = (c, new_item a fs) ∷ entries (suc c) xs

abbrev pub requests : ℕ → Wanted → List (ℕ × Target)
requests c [] = []
requests c ((a, fs) ∷ xs) = (c, target_of a fs) ∷ requests (suc c) xs

-- The items that the server has created, with their numbers.
abbrev pub created : ℕ → Wanted → List (Option ℕ) → List (ℕ × MonitoredItem)
created c [] rs = []
created c (x ∷ xs) [] = []
created c (x ∷ xs) (none ∷ rs) = created (suc c) xs rs
created c (x ∷ xs) (some i ∷ rs) =
    (c, record { id = i; node_attr = x.0; event_fields = x.1 }) ∷ created (suc c) xs rs

abbrev pub all_created : List (Option ℕ) → Bool
all_created [] = true
all_created (none ∷ rs) = false
all_created (some i ∷ rs) = all_created rs

-- All items, with the number of those that are created.
abbrev pub marked : ℕ → Wanted → List (Option ℕ) → List (ℕ × MonitoredItem)
marked c [] rs = []
marked c (x ∷ xs) [] = entries c (x ∷ xs)
marked c (x ∷ xs) (none ∷ rs) = (c, new_item x.0 x.1) ∷ marked (suc c) xs rs
marked c (x ∷ xs) (some i ∷ rs) =
    (c, record { id = i; node_attr = x.0; event_fields = x.1 }) ∷ marked (suc c) xs rs

abbrev pub refused : ℕ → List (Option ℕ) → List ℕ
refused c [] = []
refused c (none ∷ rs) = c ∷ refused (suc c) rs
refused c (some i ∷ rs) = refused (suc c) rs

-- The handles of a call are above those of the items before.
abbrev pub Above : ℕ → List ℕ → Type 0
Above n hs = All (λ h. n < h) hs
