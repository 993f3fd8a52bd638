-- ===== src/Bridge/Policy.antt =====
-- What the properties of the data provider say of a node, without the loop of getValueHandling.
use opc_ua_server.Prelude.{
  ◌≡◌, refl, Bool-cases, inl, inr, Option, none, some, List, [], ◌∷◌, if◌then◌else◌,
}
use opc_ua_server.Prelude.Result.{Result, ok, throws, undefined, no_value_handling}
use opc_ua_server.Io
use opc_ua_server.Bridge.{
  Properties, handling_of, default_of, find_handling, handling_in, get_value_handling,
}

abbrev pub entries : Option (List Io.NodeData) → List Io.NodeData
entries none = []
entries (some ds) = ds

-- The first entry for the node.
abbrev pub listed : Io.NodeId → List Io.NodeData → Option Io.NodeData
listed id [] = none
listed id (d ∷ ds) = if Io.equals id d.node then some d else listed id ds

-- What an entry without node properties says is not a handling.
abbrev pub said_by : Option Io.Variant → Result Io.ValueHandling
said_by (some (Io.Variant.node_properties h)) = ok h
said_by (some v) = undefined
said_by none = throws no_value_handling

abbrev pub or_else : Option Io.NodeData → Option Io.ValueHandling → Result Io.ValueHandling
or_else (some d) h = said_by d.payload
or_else none (some h) = ok h
or_else none none = throws no_value_handling

-- The handling that the node's own entry says, or else the default one.
abbrev pub policy : Properties → Io.NodeId → Result Io.ValueHandling
policy ps id = or_else (listed id (entries ps.nodes)) ps.default_handling

handling_of_lem : (w : Option Io.Variant) → handling_of w ≡ said_by w
unfolding handling_of
handling_of_lem none = refl
handling_of_lem (some (Io.Variant.node_properties h)) = refl
handling_of_lem (some (Io.Variant.scalar s)) = refl
handling_of_lem (some (Io.Variant.null_array t)) = refl
handling_of_lem (some (Io.Variant.array t es)) = refl
handling_of_lem (some (Io.Variant.structure n fs)) = refl
handling_of_lem (some (Io.Variant.node_id n)) = refl
handling_of_lem (some (Io.Variant.event_data n t z fs)) = refl

default_of_lem : (h : Option Io.ValueHandling) → default_of h ≡ or_else none h
unfolding default_of
default_of_lem none = refl
default_of_lem (some h) = refl

find_handling_lem :
    (id : Io.NodeId) (h : Option Io.ValueHandling) (ds : List Io.NodeData)
    → find_handling id h ds ≡ or_else (listed id ds) h
unfolding find_handling
find_handling_lem id h [] = default_of_lem h
find_handling_lem id h (d ∷ ds) = elim (Bool-cases (Io.equals id d.node)) [
  | inl e ↦ rw (find_handling, e) (handling_of_lem d.payload)
  | inr e ↦ rw (find_handling, e) (find_handling_lem id h ds)
]

handling_in_lem :
    (id : Io.NodeId) (h : Option Io.ValueHandling) (o : Option (List Io.NodeData))
    → handling_in id h o ≡ or_else (listed id (entries o)) h
unfolding handling_in
handling_in_lem id h none = find_handling_lem id h []
handling_in_lem id h (some ds) = find_handling_lem id h ds

pub get_value_handling-policy :
    (ps : Properties) (id : Io.NodeId) → get_value_handling ps id ≡ policy ps id
unfolding get_value_handling
get_value_handling-policy ps id = handling_in_lem id ps.default_handling ps.nodes
