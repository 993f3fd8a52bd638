-- ===== src/Subscription/Emptying.antt =====
-- src/binaryServer/HaSubscription.cpp: removeAll.
use opc_ua_server.Prelude.{
  ℕ, Bool, true, false, List, [], ◌∷◌, none, some, All, ◌≡◌, refl, ◌≢◌, arith, ap, length, ◌∙◌,
}
use opc_ua_server.Prelude.Result.{ok}
use opc_ua_server.Ua.Sdk.{UaNodeId}
use opc_ua_server.Subscription.Handles.Order.{lookup_head, erase_head}
use opc_ua_server.Subscription.{
  State, Server, MonitoredItem, returned, with_items, with_subscription, delete_subscription,
  forget, release, choose, is_empty, first_item, add_chosen,
}
use opc_ua_server.Subscription.Methods.{
  finish_remove, remove_chosen, remove, remove_all, ids_of, nodes_of,
}

-- The handles and numbers of all items.
abbrev pub all_chosen : List (ℕ × MonitoredItem) → List (ℕ × ℕ)
all_chosen [] = []
all_chosen ((h, x) ∷ ms) = (h, x.id) ∷ all_chosen ms

all_chosen_full : (ms : List (ℕ × MonitoredItem)) → ms ≢ [] → all_chosen ms ≢ []
all_chosen_full [] n = λ e. n refl
all_chosen_full (m ∷ ms) n = λ e. cc

pub remove_chosen_step :
    (srv : Server) (cs : List (ℕ × ℕ)) (s : State) (i : ℕ) (answers : List Bool)
    → cs ≢ []
    → s.subscription ≡ some i
    → srv.delete_items i (ids_of cs) ≡ some answers
    → remove_chosen srv cs s ≡ finish_remove srv s (forget cs answers s.monitored_items)
unfolding remove_chosen
remove_chosen_step srv [] s i answers n e f = absurd (n refl)
remove_chosen_step srv (c ∷ cs) s i answers n e f = ground arith

forget-all_chosen :
    (ms : List (ℕ × MonitoredItem)) (answers : List Bool)
    → All (λ b. b ≡ true) answers
    → length answers ≡ length ms
    → forget (all_chosen ms) answers ms ≡ ok ([], false)
unfolding forget
forget-all_chosen [] [] g l = refl
forget-all_chosen [] (r ∷ rs) g l = absurd (omega arith)
forget-all_chosen (m ∷ ms) [] g l = absurd (omega arith)
forget-all_chosen ((h, x) ∷ ms) (true ∷ rs) g l =
    rw (forget, lookup_head h x ms, erase_head h x ms) (forget-all_chosen ms rs g.1 (omega arith))
forget-all_chosen (m ∷ ms) (false ∷ rs) g l = absurd (let q = g.0 in cc)

release-empty :
    (srv : Server) (s : State) (i : ℕ)
    → s.monitored_items ≡ []
    → s.subscription ≡ some i
    → srv.delete_subscription i ≡ true
    → release srv s ≡ returned (with_subscription none s)
unfolding release delete_subscription is_empty
release-empty srv s i e f g = rw (e, f, g) refl

remove_chosen_full :
    (s : State) (srv : Server) (i : ℕ) (answers : List Bool)
    → s.monitored_items ≢ []
    → s.subscription ≡ some i
    → srv.delete_items i (ids_of (all_chosen s.monitored_items)) ≡ some answers
    → All (λ b. b ≡ true) answers
    → length answers ≡ length s.monitored_items
    → srv.delete_subscription i ≡ true
    → remove_chosen srv (all_chosen s.monitored_items) s
      ≡ returned (with_subscription none (with_items [] s))
unfolding finish_remove
remove_chosen_full s srv i answers ne e f g l k =
    rw
      (
        remove_chosen_step srv (all_chosen s.monitored_items) s i answers
            (all_chosen_full s.monitored_items ne) e f,
        forget-all_chosen s.monitored_items answers g l,
      )
      (release-empty srv (with_items [] s) i refl e k)

module _ (same : UaNodeId → UaNodeId → Bool) where
  -- No two items have the same node.
  abbrev pub IsDistinct : List (ℕ × MonitoredItem) → Type 0
  IsDistinct [] = Unit {0}
  IsDistinct ((h, x) ∷ ms) =
      All (λ e. same e.1.node_attr.node_id x.node_attr.node_id ≡ false) ms × IsDistinct ms

  choose-skip :
      (h : ℕ) (x : MonitoredItem) (ns : List (ℕ × MonitoredItem)) (ms : List (ℕ × MonitoredItem))
      → All (λ e. same e.1.node_attr.node_id x.node_attr.node_id ≡ false) ns
      → choose same (nodes_of ns) ((h, x) ∷ ms) ≡ choose same (nodes_of ns) ms
  unfolding choose first_item nodes_of
  choose-skip h x [] ms d = refl
  choose-skip h x ((k, y) ∷ ns) ms d = rw (d.0, choose-skip h x ns ms d.1) refl

  choose-nodes_of :
      (ms : List (ℕ × MonitoredItem))
      → All (λ e. same e.1.node_attr.node_id e.1.node_attr.node_id ≡ true) ms
      → IsDistinct ms
      → choose same (nodes_of ms) ms ≡ all_chosen ms
  unfolding choose first_item nodes_of add_chosen
  choose-nodes_of [] r d = refl
  choose-nodes_of ((h, x) ∷ ms) r d =
      rw r.0 (ap (λ cs. (h, x.id) ∷ cs) (choose-skip h x ms ms d.0 ∙ choose-nodes_of ms r.1 d.1))

  -- When each item has a node of its own, the server deletes every item and then the subscription,
  -- removeAll asks for the numbers of all items and leaves neither an item nor the subscription; the
  -- next client handle stays.
  pub remove_all-empties :
      (s : State) (srv : Server) (i : ℕ) (answers : List Bool)
      → All (λ e. same e.1.node_attr.node_id e.1.node_attr.node_id ≡ true) s.monitored_items
      → IsDistinct s.monitored_items
      → s.monitored_items ≢ []
      → s.subscription ≡ some i
      → srv.delete_items i (ids_of (all_chosen s.monitored_items)) ≡ some answers
      → All (λ b. b ≡ true) answers
      → length answers ≡ length s.monitored_items
      → srv.delete_subscription i ≡ true
      → remove_all same srv s
        ≡ returned (record {
          client_handle_counter = s.client_handle_counter;
          subscription = none;
          monitored_items = [];
        })
  unfolding remove_all remove
  remove_all-empties s srv i answers r d ne e f g l k =
      rw (choose-nodes_of s.monitored_items r d) (remove_chosen_full s srv i answers ne e f g l k)
