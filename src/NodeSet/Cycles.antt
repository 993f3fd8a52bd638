-- ===== src/NodeSet/Cycles.antt =====
-- src/provider/uaNodeSetXml/sasModelProvider/HaNodeManagerNodeSetXml.cpp, addVariables, for objects that refer to each
-- other.
use opc_ua_server.Prelude.{ℕ, zero, suc, none, some, List, ◌∷◌, ◌≡◌, refl, ap, Text, text_eq}
use opc_ua_server.Prelude.Result.{undefined}
use opc_ua_server.Ua.Sdk.{UaNodeId}
use opc_ua_server.EventTypes.{find}
use opc_ua_server.Browser.{NodeClass, UaNode, get_node}
use opc_ua_server.NodeSet.{
  Environment, Reference, enter_variable, add_referenced, and_then, add_variables,
}

module _ (env : Environment) where
  -- An object that is not in the map, and whose first reference leads to the other node.
  abbrev pub IsObjectBefore : UaNode → List (Text × UaNodeId) → UaNode → Type 0
  IsObjectBefore n vs m =
      (n.node_class ≡ NodeClass.object)
      × (find text_eq (env.to_xml_string n.node_id) vs ≡ none)
      × ((r : Reference) × (rs : List Reference) × (env.browse_forward n ≡ some (r ∷ rs))
          × (get_node env.manager r.node_id ≡ some m))

  enter_object :
      (n : UaNode) (vs : List (Text × UaNodeId))
      → n.node_class ≡ NodeClass.object
      → enter_variable env n vs ≡ vs
  unfolding enter_variable
  enter_object n vs c = rw c refl

  -- Two objects whose first hierarchical references lead to each other: addVariables has no end, whatever the
  -- depth of the stack, since it enters only variables into its map.
  pub add_variables-object_cycle :
      (depth : ℕ) (n m : UaNode) (vs : List (Text × UaNodeId))
      → IsObjectBefore n vs m
      → IsObjectBefore m vs n
      → add_variables env depth n vs ≡ (vs, undefined)
  unfolding add_variables add_referenced and_then
  add_variables-object_cycle zero n m vs h k = refl
  add_variables-object_cycle (suc depth) n m vs (c, f, (r, rs, b, g)) (d, e, (q, qs, w, x)) =
      rw (add_variables, f, b, enter_object n vs c)
        (rw (add_referenced, g)
          (rw d (
            ap (λ out. and_then out (add_referenced env (add_variables env depth) rs))
              (add_variables-object_cycle depth m n vs (d, e, (q, qs, w, x))
                (c, f, (r, rs, b, g))))))
