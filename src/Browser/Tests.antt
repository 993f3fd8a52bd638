-- ===== src/Browser/Tests.antt =====
-- A node manager with a chain of types: 11 below 10, and 10 below 22 of the namespace 0.
use opc_ua_server.Prelude.{
  ℕ, zero, suc, Option, none, some, List, [], ◌∷◌, ◌≡◌, ◌≢◌, refl, ◌==◌, arith, Bool-cases, inl,
  inr,
}
use opc_ua_server.Prelude.Result.{ok, throws, too_deep}
use opc_ua_server.Ua.Sdk.{UaNodeId, numeric, ua_namespace}
use opc_ua_server.Browser.{
  HaNodeManager, NodeManager, NodeClass, UaNode, get_node, get_variable, last, get_super_types,
  get_node_manager_ua_node,
}
use opc_ua_server.Browser.SuperTypes.{IsRanked, IsEnd, get_super_types_ends, get_super_types_base}

abbrev type : UaNodeId → List UaNodeId → UaNode
type t ts = record { node_id = t; node_class = NodeClass.data_type; super_types = some ts }

-- The types are counted from the top.
abbrev known : UaNodeId → Option UaNode
known (numeric ns zero) = some (type (numeric 2 0) (numeric 0 22 ∷ []))
known (numeric ns (suc zero)) = some (type (numeric 2 1) (numeric 2 0 ∷ []))
known t = none

abbrev base : NodeManager
base = record { name_space_index = 2; get_node = known; structure_definition = λ t. none }

abbrev root : NodeManager
root = record {
  name_space_index = 0;
  get_node = λ t. some (type (numeric 0 22) []);
  structure_definition = λ t. none;
}

abbrev manager : HaNodeManager
manager = record { root = root; base = base; associated = none }

climbed : get_super_types manager 9 (numeric 2 1) ≡ ok (numeric 2 0 ∷ numeric 0 22 ∷ [])
unfolding get_super_types ua_namespace
climbed = refl

not_variable : get_variable manager (numeric 2 1) ≡ none
unfolding get_variable ua_namespace
not_variable = refl

get_super_types_base_example : IsEnd manager (numeric 0 22)
unfolding last
get_super_types_base_example =
    get_super_types_base manager 9 (numeric 2 1) (numeric 2 0 ∷ numeric 0 22 ∷ []) (numeric 0 22)
      climbed refl

abbrev rank : UaNodeId → ℕ
rank (numeric zero i) = 0
rank t = 1

-- One type below the base type.
abbrev leaf : UaNode
leaf = type (numeric 2 1) (numeric 0 22 ∷ [])

abbrev top : UaNode
top = type (numeric 0 22) []

abbrev single : HaNodeManager
single = record manager { base = record base { get_node = λ t. some leaf } }

single-IsRanked : IsRanked single rank
unfolding get_node last get_node_manager_ua_node ua_namespace
single-IsRanked i s t u ids e n g l d = elim (Bool-cases (ua_namespace i == 0)) [
  | inl a ↦
      let f = rw (get_node, get_node_manager_ua_node, a) at e in
      let q : top ≡ t = cc in absurd (let z = rw (← q) at n in cc)
  | inr a ↦ elim (Bool-cases (2 == ua_namespace i)) [
    | inr b ↦ absurd (let f = rw (get_node, get_node_manager_ua_node, a, b) at e in cc)
    | inl b ↦
        let f = rw (get_node, get_node_manager_ua_node, a, b) at e in
        let q : leaf ≡ t = cc in
        let k : numeric 0 22 ∷ [] ≡ ids = let z = rw (← q) at g in cc in
        let m : numeric 0 22 ≡ s = let z = rw (← k) at l in cc in
        let v : top ≡ u = let z = rw (← m) at d in cc in rw (← q, ← v) (omega arith)
  ]
]

get_super_types_ends_example : get_super_types single 3 (numeric 2 1) ≢ throws too_deep
unfolding get_node get_node_manager_ua_node ua_namespace
get_super_types_ends_example =
    get_super_types_ends single rank (numeric 2 1) leaf single-IsRanked refl
