-- ===== src/Browser.antt =====
-- src/sasModelProvider/base/NodeBrowser.cpp: the search for nodes in the node managers, and for the super
-- types of a type. The search for the super types is on fuel, one unit for a type on the way up. The
-- release of references is left out.
pub mod SuperTypes
mod Tests
use opc_ua_server.Prelude.{
  ℕ, zero, suc, Bool, true, false, Option, none, some, List, [], ◌∷◌, ◌++◌, if◌then◌else◌, ◌==◌,
}
use opc_ua_server.Prelude.Result.{Result, ok, throws, fmap, too_deep, cannot_browse}
use opc_ua_server.Ua.Sdk.{UaNodeId, StructureDefinition, ua_namespace}

-- nodeClass()
pub data NodeClass : Type 0 where
  object variable method object_type variable_type reference_type data_type view : NodeClass

-- What the code uses of a node: its browsing of the inverse references HasSubtype gives the targets, or
-- null for a bad status.
pub record UaNode : Type 0 where
  pub node_id : UaNodeId
  pub node_class : NodeClass
  pub super_types : Option (List UaNodeId)

-- A node manager of the SDK. Null is a null pointer, or a null definition.
pub record NodeManager : Type 0 where
  pub name_space_index : ℕ
  pub get_node : UaNodeId → Option UaNode
  pub structure_definition : UaNodeId → Option StructureDefinition

-- The node manager of the namespace 0, the own one, and the associated ones, which may be null.
pub record HaNodeManager : Type 0 where
  pub root : NodeManager
  pub base : NodeManager
  pub associated : Option (List NodeManager)

find_manager : ℕ → List NodeManager → Option NodeManager
find_manager ns [] = none
find_manager ns (m ∷ ms) = if m.name_space_index == ns then some m else find_manager ns ms

unfoldable pub get_node_manager_ua_node : HaNodeManager → UaNodeId → Option NodeManager
unfolding find_manager
get_node_manager_ua_node h id =
    if ua_namespace id == 0
    then some h.root
    else if h.base.name_space_index == ua_namespace id
    then some h.base
    else elim h.associated [ none ↦ none | some ms ↦ find_manager (ua_namespace id) ms ]

unfoldable pub get_node : HaNodeManager → UaNodeId → Option UaNode
unfolding get_node_manager_ua_node
get_node h id = elim (get_node_manager_ua_node h id) [ none ↦ none | some m ↦ m.get_node id ]

unfoldable pub get_structure_definition : HaNodeManager → UaNodeId → Option StructureDefinition
unfolding get_node_manager_ua_node
get_structure_definition h id = elim (get_node_manager_ua_node h id) [
  | none ↦ none
  | some m ↦ m.structure_definition id
]

-- The getters for a class of nodes.
unfoldable pub only : (NodeClass → Bool) → Option UaNode → Option UaNode
only is_wanted none = none
only is_wanted (some n) = if is_wanted n.node_class then some n else none

abbrev is_data_type : NodeClass → Bool
is_data_type NodeClass.data_type = true
is_data_type c = false

unfoldable pub get_data_type : HaNodeManager → UaNodeId → Option UaNode
unfolding get_node only
get_data_type h id = only is_data_type (get_node h id)

abbrev is_object_type : NodeClass → Bool
is_object_type NodeClass.object_type = true
is_object_type c = false

unfoldable pub get_object_type : HaNodeManager → UaNodeId → Option UaNode
unfolding get_node only
get_object_type h id = only is_object_type (get_node h id)

abbrev is_object : NodeClass → Bool
is_object NodeClass.object = true
is_object c = false

unfoldable pub get_object : HaNodeManager → UaNodeId → Option UaNode
unfolding get_node only
get_object h id = only is_object (get_node h id)

abbrev is_variable_type : NodeClass → Bool
is_variable_type NodeClass.variable_type = true
is_variable_type c = false

unfoldable pub get_variable_type : HaNodeManager → UaNodeId → Option UaNode
unfolding get_node only
get_variable_type h id = only is_variable_type (get_node h id)

abbrev is_variable : NodeClass → Bool
is_variable NodeClass.variable = true
is_variable c = false

unfoldable pub get_variable : HaNodeManager → UaNodeId → Option UaNode
unfolding get_node only
get_variable h id = only is_variable (get_node h id)

abbrev is_method : NodeClass → Bool
is_method NodeClass.method = true
is_method c = false

unfoldable pub get_method : HaNodeManager → UaNodeId → Option UaNode
unfolding get_node only
get_method h id = only is_method (get_node h id)

-- The super type that the search goes on with is the last of the targets.
unfoldable pub last : List UaNodeId → Option UaNodeId
last [] = none
last (t ∷ []) = some t
last (t ∷ u ∷ ts) = last (u ∷ ts)

-- The `while` loop, with the super types that it adds.
unfoldable pub climb : HaNodeManager → ℕ → Option UaNode → Result (List UaNodeId)
unfolding get_node last
climb h zero t = throws too_deep
climb h (suc n) none = ok []
climb h (suc n) (some t) =
    let rest = climb h n in
    if ua_namespace t.node_id == 0 then ok [] else elim t.super_types [
      | none ↦ throws cannot_browse
      | some ids ↦ elim (last ids) [
        | none ↦ ok ids
        | some s ↦ fmap (λ ts. ids ++ ts) (rest (get_node h s))
      ]
    ]

unfoldable pub get_super_types : HaNodeManager → ℕ → UaNodeId → Result (List UaNodeId)
unfolding climb get_node
get_super_types h fuel t = climb h fuel (get_node h t)
