-- ===== src/Bridge/Lifecycle/Balance.antt =====
-- src/sasModelProvider/base/HaNodeManagerIODataProviderBridge.cpp: afterStartUp, then beforeShutDown.
use opc_ua_server.Prelude.{
  ℕ, suc, ap, ◌≡◌, refl, Bool, true, false, ◌&&◌, Option, none, some, List, [], ◌∷◌, arith,
}
use opc_ua_server.Prelude.Result.{Result, ok, throws, undefined, ◌>>=◌, fmap, Defined, returns}
use opc_ua_server.Io
use opc_ua_server.Bridge.Lifecycle.{
  Store, Pointers, Provider, created, allocate, remove, delete, allocate_entries, allocate_default,
  allocate_nodes, from_node_properties, from_default_properties, from_node_browser, after_start_up,
  delete_entries, delete_nodes, before_shut_down,
}

-- No call of the data provider is undefined.
pub record IsSafe (io : Provider) : Type 0 where
  pub browser_defined : Defined io.set_node_browser
  pub default_defined : Defined io.get_default_node_properties
  pub nodes_defined : Defined io.get_node_properties

-- Every call of the data provider returns.
abbrev pub all_called : Provider → Bool
all_called io =
    returns io.set_node_browser
    && (returns io.get_default_node_properties && returns io.get_node_properties)

remove-head : (p : ℕ) (ps : List ℕ) → remove p (p ∷ ps) ≡ ok ps
unfolding remove
remove-head p ps = ground arith

-- A store with these objects; a deletion keeps the next address.
abbrev store : ℕ → List ℕ → Store
store n l = record { next = n; live = l }

delete-head : (n p : ℕ) (l : List ℕ) → delete (some p) (store n (p ∷ l)) ≡ ok (store n l)
unfolding delete
delete-head n p l = rw (remove-head p l) refl

-- The entries are deleted in the order of the vector.
delete-allocate_entries :
    (ds : List Io.NodeData) (s : Store) (n : ℕ)
    → delete_entries (allocate_entries ds s).0 (store n (allocate_entries ds s).1.live)
      ≡ ok (store n s.live)
unfolding allocate allocate_entries delete_entries
delete-allocate_entries [] s n = refl
delete-allocate_entries (d ∷ ds) s n =
    rw (delete-head n (allocate_entries ds s).1.next (allocate_entries ds s).1.live)
      (delete-allocate_entries ds s n)

delete-allocate_nodes :
    (r : Option (List Io.NodeData)) (s : Store) (n : ℕ)
    → delete_nodes (allocate_nodes r s).0 (store n (allocate_nodes r s).1.live)
      ≡ ok (store n s.live)
unfolding allocate allocate_nodes delete_nodes
delete-allocate_nodes none s n = refl
delete-allocate_nodes (some ds) s n =
    rw (delete-allocate_entries ds (allocate s).1 n) (delete-head n s.next s.live)

delete-allocate_default :
    (r : Option Io.ValueHandling) (s : Store) (n : ℕ)
    → delete (allocate_default r s).0 (store n (allocate_default r s).1.live) ≡ ok (store n s.live)
unfolding allocate allocate_default delete
delete-allocate_default none s n = refl
delete-allocate_default (some h) s n = delete-head n s.next s.live

-- A created bridge is started and shut down: the status of the start, that of the end, and the
-- objects that are left.
unfoldable pub finish : Bool × (Pointers × Store) → Result (Bool × (Bool × List ℕ))
finish (started, (b, t)) = fmap (λ e. (started, (e.0, e.1.live))) (before_shut_down b t)

unfoldable pub run : Provider → Store → Result (Bool × (Bool × List ℕ))
unfolding created finish
run io s = after_start_up io created s >>= finish

-- The bridge with what it has before the node properties.
abbrev begun : ℕ → ℕ → Option ℕ → Pointers
begun p q d = record created {
  node_browser = some p;
  subscriber_callback = some q;
  default_properties = d;
}

before_shut_down-ok :
    (b : Pointers) (s s1 s2 s3 s4 s5 : Store)
    → delete b.converter s ≡ ok s1
    → delete_nodes b.node_properties s1 ≡ ok s2
    → delete b.default_properties s2 ≡ ok s3
    → delete b.subscriber_callback s3 ≡ ok s4
    → delete b.node_browser s4 ≡ ok s5
    → before_shut_down b s ≡ ok (true, s5)
unfolding before_shut_down
before_shut_down-ok b s s1 s2 s3 s4 s5 e1 e2 e3 e4 e5 = rw (e1, e2, e3, e4, e5) refl

delete-none : (s : Store) → delete none s ≡ ok s
unfolding delete
delete-none s = refl

delete_nodes-none : (s : Store) → delete_nodes none s ≡ ok s
unfolding delete_nodes
delete_nodes-none s = refl

finish-nodes :
    (r : Result (Option (List Io.NodeData))) (p q : ℕ) (d : Option ℕ) (s : Store) (l : List ℕ)
    → Defined r
    → ((n : ℕ) → delete d (store n s.live) ≡ ok (store n (q ∷ p ∷ l)))
    → (from_node_properties r (begun p q d) s >>= finish) ≡ ok (returns r, (true, l))
unfolding from_node_properties finish created allocate
finish-nodes undefined p q d s l h e = absurd h
finish-nodes (throws w) p q d s l h e = ap (fmap (λ r. (false, (r.0, r.1.live)))) (
    before_shut_down-ok (begun p q d) s s s (store s.next (q ∷ p ∷ l)) (store s.next (p ∷ l))
      (store s.next l) (delete-none s) (delete_nodes-none s) (e s.next)
      (delete-head s.next q (p ∷ l)) (delete-head s.next p l))
finish-nodes (ok r) p q d s l h e =
    let n = suc (allocate_nodes r s).1.next in
    ap (fmap (λ r. (true, (r.0, r.1.live)))) (
      before_shut_down-ok
        (record (begun p q d) {
          node_properties = (allocate_nodes r s).0;
          converter = some (allocate_nodes r s).1.next;
        })
        (allocate (allocate_nodes r s).1).1 (store n (allocate_nodes r s).1.live) (store n s.live)
        (store n (q ∷ p ∷ l)) (store n (p ∷ l)) (store n l)
        (delete-head n (allocate_nodes r s).1.next (allocate_nodes r s).1.live)
        (delete-allocate_nodes r s n) (e n) (delete-head n q (p ∷ l)) (delete-head n p l))

finish-default :
    (io : Provider) (r : Result (Option Io.ValueHandling)) (p q n : ℕ) (l : List ℕ)
    → Defined r
    → Defined io.get_node_properties
    → (from_default_properties io r (begun p q none) (store n (q ∷ p ∷ l)) >>= finish)
      ≡ ok (returns r && returns io.get_node_properties, (true, l))
unfolding from_default_properties finish created
finish-default io undefined p q n l h k = absurd h
finish-default io (throws w) p q n l h k = ap (fmap (λ r. (false, (r.0, r.1.live)))) (
    before_shut_down-ok (begun p q none) (store n (q ∷ p ∷ l)) (store n (q ∷ p ∷ l))
      (store n (q ∷ p ∷ l)) (store n (q ∷ p ∷ l)) (store n (p ∷ l)) (store n l)
      (delete-none (store n (q ∷ p ∷ l))) (delete_nodes-none (store n (q ∷ p ∷ l)))
      (delete-none (store n (q ∷ p ∷ l))) (delete-head n q (p ∷ l)) (delete-head n p l))
finish-default io (ok r) p q n l h k =
    finish-nodes io.get_node_properties p q (allocate_default r (store n (q ∷ p ∷ l))).0
      (allocate_default r (store n (q ∷ p ∷ l))).1 l k
      (delete-allocate_default r (store n (q ∷ p ∷ l)))

finish-browser :
    (io : Provider) (r : Result (Unit {0})) (p n : ℕ) (l : List ℕ)
    → Defined r
    → Defined io.get_default_node_properties
    → Defined io.get_node_properties
    → (from_node_browser io r (record created { node_browser = some p }) (store n (p ∷ l))
        >>= finish)
      ≡ ok (
        returns r && (returns io.get_default_node_properties && returns io.get_node_properties),
        (true, l),
      )
unfolding from_node_browser finish created allocate
finish-browser io undefined p n l h j k = absurd h
finish-browser io (throws w) p n l h j k = ap (fmap (λ r. (false, (r.0, r.1.live)))) (
    before_shut_down-ok (record created { node_browser = some p }) (store n (p ∷ l))
      (store n (p ∷ l)) (store n (p ∷ l)) (store n (p ∷ l)) (store n (p ∷ l)) (store n l)
      (delete-none (store n (p ∷ l))) (delete_nodes-none (store n (p ∷ l)))
      (delete-none (store n (p ∷ l))) (delete-none (store n (p ∷ l))) (delete-head n p l))
finish-browser io (ok u) p n l h j k =
    finish-default io io.get_default_node_properties p n (suc n) l j k

-- If no call of the data provider is undefined, the start of a created bridge is good exactly if every
-- call returns, and the shutdown after any start is good and leaves the objects from before.
pub run-balanced :
    (io : Provider) (s : Store) → IsSafe io → run io s ≡ ok (all_called io, (true, s.live))
unfolding run after_start_up allocate
run-balanced io s h =
    finish-browser io io.set_node_browser s.next (suc s.next) s.live h.browser_defined
      h.default_defined h.nodes_defined
