-- ===== src/NodeSet/Tests.antt =====
-- Two nodes of one class: the second type is a subtype of the first, which is generated; and each of the two
-- objects refers to the other.
use opc_ua_server.Prelude.{
  ℕ, zero, suc, Bool, true, false, Option, none, some, List, [], ◌∷◌, ◌≡◌, refl, Text, text_eq, All,
  arith,
}
use opc_ua_server.Prelude.Result.{ok, undefined}
use mathlib.Core.Path.{subst}
use opc_ua_server.Ua.Sdk.{UaNodeId, numeric, ua_namespace}
use opc_ua_server.Browser.{
  HaNodeManager, NodeManager, NodeClass, UaNode, get_node, get_node_manager_ua_node,
}
use opc_ua_server.EventTypes.{find}
use opc_ua_server.NodeSet.{
  Environment, Reference, Direction, meaning, direction_of, is_event_type, add_variables,
  add_object_type_elements, has_subtype, generates_event,
}
use opc_ua_server.NodeSet.Created.{
  State, after_start_up, before_shut_down, all_nodes_and_references_created,
}
use opc_ua_server.NodeSet.Deciding.{Decides, Generates, Lowers, IsRanked, is_event_type-decides}
use opc_ua_server.NodeSet.Ending.{
  Adds, IsClosed, IsKnown, LeadsToKnown, add_object_type_elements-Adds,
}
use opc_ua_server.NodeSet.Cycles.{add_variables-object_cycle}

abbrev node : NodeClass → ℕ → UaNode
node c i = record { node_id = numeric 2 i; node_class = c; super_types = none }

abbrev manager_of : NodeClass → ℕ → NodeManager
manager_of c ns = record {
  name_space_index = ns;
  get_node = λ id. elim id [ numeric n i ↦ some (node c i) | other ↦ none ];
  structure_definition = λ id. none;
}

abbrev manager : NodeClass → HaNodeManager
manager c = record { root = manager_of c 0; base = manager_of c 2; associated = none }

abbrev text : UaNodeId → Text
text (numeric ns i) = i ∷ []
text id = []

abbrev reference : ℕ → ℕ → Bool → Reference
reference i t f = record { node_id = numeric 2 i; reference_type = t; is_forward = f }

-- From a node to the other.
abbrev forward_of : UaNodeId → Option (List Reference)
forward_of (numeric ns zero) = some (reference 1 33 true ∷ [])
forward_of id = some (reference 0 33 true ∷ [])

abbrev types_of : UaNodeId → Option (List Reference)
types_of (numeric ns zero) = some (reference 5 generates_event false ∷ [])
types_of (numeric ns (suc zero)) = some (reference 0 has_subtype false ∷ [])
types_of id = some []

abbrev env : NodeClass → Environment
env c = record {
  manager = manager c;
  to_xml_string = text;
  browse_forward = λ n. forward_of n.node_id;
  browse_both = λ n. some (reference 0 33 true ∷ reference 1 33 false ∷ []);
  browse_types = λ n. types_of n.node_id;
  field_index = λ n. 0;
}

abbrev types : Environment
types = env NodeClass.object_type

event_type_found : is_event_type types 2 (node NodeClass.object_type 1) Direction.both ≡ ok true
unfolding is_event_type get_node get_node_manager_ua_node ua_namespace meaning direction_of
event_type_found = refl

-- A node without references.
nothing_below : is_event_type types 2 (node NodeClass.object_type 2) Direction.both ≡ ok false
unfolding is_event_type
nothing_below = refl

abbrev rank_of : UaNodeId → ℕ
rank_of (numeric ns (suc zero)) = 1
rank_of id = 0

abbrev rank : Direction → UaNode → ℕ
rank d n = rank_of n.node_id

ranked_at :
    (d : Direction) (n : UaNode) (id : UaNodeId)
    → n.node_id ≡ id
    → (rs : List Reference) × (types_of n.node_id ≡ some rs) × All (Lowers types rank d n) rs
unfolding meaning direction_of get_node get_node_manager_ua_node ua_namespace
ranked_at d n (numeric ns zero) e =
    (reference 5 generates_event false ∷ [], rw e refl, (λ m. absurd (cc), tt))
ranked_at d n (numeric ns (suc zero)) e = (
  reference 0 has_subtype false ∷ [],
  rw e refl,
  (λ m. (node NodeClass.object_type 0, refl, rw e (omega arith)), tt),
)
ranked_at d n (numeric ns (suc (suc i))) e = ([], rw e refl, tt)
ranked_at d n (UaNodeId.string ns s) e = ([], rw e refl, tt)
ranked_at d n (UaNodeId.guid i) e = ([], rw e refl, tt)
ranked_at d n (UaNodeId.opaque i) e = ([], rw e refl, tt)

ranked : IsRanked types rank
ranked d n = ranked_at d n n.node_id refl

is_event_type-decides_example :
    Decides
      (is_event_type types 2 (node NodeClass.object_type 1) Direction.both)
      (Generates types Direction.both (node NodeClass.object_type 1))
is_event_type-decides_example =
    is_event_type-decides types rank 2 Direction.both (node NodeClass.object_type 1) ranked
      (omega arith)

abbrev keys : List Text
keys = (0 ∷ []) ∷ (1 ∷ []) ∷ []

first_known : LeadsToKnown types keys (reference 0 33 true)
unfolding get_node get_node_manager_ua_node ua_namespace text_eq
first_known m e = let q : node NodeClass.object_type 0 ≡ m = cc in subst (IsKnown types keys) q refl

second_known : LeadsToKnown types keys (reference 1 33 false)
unfolding get_node get_node_manager_ua_node ua_namespace text_eq
second_known m e =
    let q : node NodeClass.object_type 1 ≡ m = cc in subst (IsKnown types keys) q refl

closed : IsClosed types keys
closed n rs k e =
    let q : reference 0 33 true ∷ reference 1 33 false ∷ [] ≡ rs = cc in
    subst (All (LeadsToKnown types keys)) q (first_known, (second_known, tt))

add_object_type_elements-Adds_example :
    Adds types keys
      (node NodeClass.object_type 0)
      []
      (add_object_type_elements types 3 (numeric 0 58) (node NodeClass.object_type 0) [])
unfolding text_eq
add_object_type_elements-Adds_example =
    add_object_type_elements-Adds types keys 3 (numeric 0 58) (node NodeClass.object_type 0) []
      closed refl (omega arith)

add_variables-object_cycle_example :
    add_variables (env NodeClass.object) 9 (node NodeClass.object 0) [] ≡ ([], undefined)
unfolding find get_node get_node_manager_ua_node ua_namespace
add_variables-object_cycle_example =
    add_variables-object_cycle (env NodeClass.object) 9 (node NodeClass.object 0)
      (node NodeClass.object 1) [] (refl, refl, (reference 1 33 true, [], refl, refl))
      (refl, refl, (reference 0 33 true, [], refl, refl))

-- The second type is an element, with the first as its parent and, which is no variable, its child.
abbrev created : State
created = record {
  object_type_elements =
      (
        1 ∷ [],
        record {
          type_id = numeric 2 1;
          node_class = NodeClass.object_type;
          parent = numeric 2 0;
          childs = numeric 2 0 ∷ [];
        },
      )
      ∷ [];
  variables = (1 ∷ [], numeric 2 1) ∷ [];
  event_type_registry = record { event_types = []; event_fields = [] };
}

-- The bridge accepts no variables, but none are left.
registered_type :
    all_nodes_and_references_created types
      (λ s t. text_eq (text s) (text t))
      2
      record {
        update_types = λ ns. ok tt;
        update_variables = λ ns. elim ns [ [] ↦ ok tt | n ∷ more ↦ undefined ];
      }
      created
    ≡ ok (
      record {
        object_type_elements = [];
        variables = [];
        event_type_registry = record {
          event_types = (numeric 2 1, numeric 2 0) ∷ [];
          event_fields = [];
        };
      },
      false,
    )
unfolding all_nodes_and_references_created get_node get_node_manager_ua_node ua_namespace meaning
    direction_of find text_eq
registered_type = refl

-- Without a good start of the base class there is no bridge to shut down.
no_bridge :
    before_shut_down true true
      (after_start_up 2 false true record { bridge = none; namespaces = [] }).0
    ≡ undefined
unfolding before_shut_down after_start_up
no_bridge = refl
