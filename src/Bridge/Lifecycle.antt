-- ===== src/Bridge/Lifecycle.antt =====
-- src/sasModelProvider/base/HaNodeManagerIODataProviderBridge.cpp: the constructor, afterStartUp and
-- beforeShutDown, with the objects they allocate and delete. The data generator is null: it is not
-- compiled in. The callback that the converter deletes is one object with it.
pub mod Balance
mod Tests
use opc_ua_server.Prelude.{
  ℕ, suc, Bool, true, false, Option, none, some, List, [], ◌∷◌, if◌then◌else◌, ◌==◌,
}
use opc_ua_server.Prelude.Result.{Result, ok, throws, undefined, ◌>>=◌, fmap}
use opc_ua_server.Io

-- The addresses of the objects that are not deleted, and the next one.
pub record Store : Type 0 where
  pub next : ℕ
  pub live : List ℕ

-- The members of the bridge that are pointers, the node properties with their entries.
pub record Pointers : Type 0 where
  pub node_browser : Option ℕ
  pub subscriber_callback : Option ℕ
  pub default_properties : Option ℕ
  pub node_properties : Option (ℕ × List ℕ)
  pub converter : Option ℕ

-- The data provider. What it returns is owned by the bridge.
pub record Provider : Type 0 where
  pub set_node_browser : Result (Unit {0})
  pub get_default_node_properties : Result (Option Io.ValueHandling)
  pub get_node_properties : Result (Option (List Io.NodeData))

-- The constructor.
unfoldable pub created : Pointers
created = record {
  node_browser = none;
  subscriber_callback = none;
  default_properties = none;
  node_properties = none;
  converter = none;
}

unfoldable pub allocate : Store → ℕ × Store
allocate s = (s.next, record { next = suc s.next; live = s.next ∷ s.live })

unfoldable pub remove : ℕ → List ℕ → Result (List ℕ)
remove p [] = undefined
remove p (q ∷ qs) = if p == q then ok qs else fmap (λ rs. q ∷ rs) (remove p qs)

-- `delete` of a pointer: nothing for null, and undefined unless the object is live.
unfoldable pub delete : Option ℕ → Store → Result Store
unfolding remove
delete none s = ok s
delete (some p) s = fmap (λ l. record s { live = l }) (remove p s.live)

-- The entries of a vector from the data provider.
unfoldable pub allocate_entries : List Io.NodeData → Store → List ℕ × Store
unfolding allocate
allocate_entries [] s = ([], s)
allocate_entries (d ∷ ds) s =
    let (ps, s1) = allocate_entries ds s in let (p, s2) = allocate s1 in (p ∷ ps, s2)

unfoldable pub allocate_default : Option Io.ValueHandling → Store → Option ℕ × Store
unfolding allocate
allocate_default none s = (none, s)
allocate_default (some h) s = let (p, t) = allocate s in (some p, t)

unfoldable pub allocate_nodes : Option (List Io.NodeData) → Store → Option (ℕ × List ℕ) × Store
unfolding allocate allocate_entries
allocate_nodes none s = (none, s)
allocate_nodes (some ds) s =
    let (v, s1) = allocate s in let (ps, s2) = allocate_entries ds s1 in (some (v, ps), s2)

-- The `try` block from each call of the data provider on: the status, where `true` is good, the
-- members and the store. The `catch` block keeps what is assigned so far.
unfoldable pub from_node_properties :
    Result (Option (List Io.NodeData)) → Pointers → Store → Result (Bool × (Pointers × Store))
unfolding allocate allocate_nodes
from_node_properties undefined b s = undefined
from_node_properties (throws e) b s = ok (false, (b, s))
from_node_properties (ok r) b s =
    let (ps, s1) = allocate_nodes r s in
    let (c, s2) = allocate s1 in
    ok (true, (record b { node_properties = ps; converter = some c }, s2))

unfoldable pub from_default_properties :
    Provider
    → Result (Option Io.ValueHandling)
    → Pointers
    → Store
    → Result (Bool × (Pointers × Store))
unfolding allocate_default from_node_properties
from_default_properties io undefined b s = undefined
from_default_properties io (throws e) b s = ok (false, (b, s))
from_default_properties io (ok r) b s =
    let (p, s1) = allocate_default r s in
    from_node_properties io.get_node_properties (record b { default_properties = p }) s1

unfoldable pub from_node_browser :
    Provider → Result (Unit {0}) → Pointers → Store → Result (Bool × (Pointers × Store))
unfolding allocate from_default_properties
from_node_browser io undefined b s = undefined
from_node_browser io (throws e) b s = ok (false, (b, s))
from_node_browser io (ok u) b s =
    let (p, s1) = allocate s in
    from_default_properties io io.get_default_node_properties
      (record b { subscriber_callback = some p }) s1

unfoldable pub after_start_up : Provider → Pointers → Store → Result (Bool × (Pointers × Store))
unfolding allocate from_node_browser
after_start_up io b s =
    let (p, s1) = allocate s in
    from_node_browser io io.set_node_browser (record b { node_browser = some p }) s1

unfoldable pub delete_entries : List ℕ → Store → Result Store
unfolding delete
delete_entries [] s = ok s
delete_entries (p ∷ ps) s = delete (some p) s >>= delete_entries ps

unfoldable pub delete_nodes : Option (ℕ × List ℕ) → Store → Result Store
unfolding delete delete_entries
delete_nodes none s = ok s
delete_nodes (some (v, ps)) s = delete_entries ps s >>= delete (some v)

-- The members keep their values.
unfoldable pub before_shut_down : Pointers → Store → Result (Bool × Store)
unfolding delete delete_nodes
before_shut_down b s = do
  s1 ← delete b.converter s
  s2 ← delete_nodes b.node_properties s1
  s3 ← delete b.default_properties s2
  s4 ← delete b.subscriber_callback s3
  s5 ← delete b.node_browser s4
  ok (true, s5)
