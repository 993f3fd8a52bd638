-- ===== src/NodeSet/Ending.antt =====
-- src/provider/uaNodeSetXml/sasModelProvider/HaNodeManagerNodeSetXml.cpp, addObjectTypeElements: its depth.
use opc_ua_server.Prelude.{
  ℕ, suc, zero, ◌<◌, ◌≡◌, refl, true, Bool-cases, Option-cases, inl, inr, some, List, [], ◌∷◌, All,
  arith, Text, text_eq, text_eq_refl,
}
use opc_ua_server.Prelude.Result.{Result, ok, throws, undefined, Defined, cannot_browse}
use opc_ua_server.Ua.Sdk.{UaNodeId}
use opc_ua_server.EventTypes.{find}
use opc_ua_server.Browser.{UaNode, get_node}
use opc_ua_server.NodeSet.{
  Environment, Reference, ObjectTypeElement, put, push_child, and_then, element, add_childs,
  add_object_type_elements,
}
use opc_ua_server.NodeSet.Keys.{
  has, missing, listed, Grows, has-find, has-find-some, has-put, Grows-put, Grows-missing,
  missing-put,
}

has-push_child :
    (k : Text) (c : UaNodeId) (m : List (Text × ObjectTypeElement)) (j : Text)
    → has (push_child k c m) j ≡ has m j
unfolding push_child
has-push_child k c [] j = refl
has-push_child k c ((i, e) ∷ m) j = elim (Bool-cases (text_eq k i)) [
  | inl h ↦ rw h refl
  | inr h ↦ rw (h, has-push_child k c m j) refl
]

-- The call ends, and loses no element.
abbrev pub Ends :
    List (Text × ObjectTypeElement) → List (Text × ObjectTypeElement) × Result (Unit {0}) → Type 0
Ends es (fs, r) = Grows es fs × Defined r

-- A second call follows the first.
Ends-and_then :
    (es : List (Text × ObjectTypeElement))
    (first : List (Text × ObjectTypeElement) × Result (Unit {0}))
    (next : List (Text × ObjectTypeElement) → List (Text × ObjectTypeElement) × Result (Unit {0}))
    → Ends es first
    → ((fs : List (Text × ObjectTypeElement)) → Grows es fs → Ends fs (next fs))
    → Ends es (and_then first next)
unfolding and_then
Ends-and_then es (fs, undefined) next (g, d) h = absurd d
Ends-and_then es (fs, throws e) next (g, d) h = (g, tt)
Ends-and_then es (fs, ok u) next (g, d) h = let (k, r) = h fs g in (λ j x. k j (g j x), r)

module _ (env : Environment) (keys : List Text) where
  abbrev pub IsKnown : UaNode → Type 0
  IsKnown n = listed (env.to_xml_string n.node_id) keys ≡ true

  -- The node of the reference, if there is one, is known.
  abbrev pub LeadsToKnown : Reference → Type 0
  LeadsToKnown r = (m : UaNode) → get_node env.manager r.node_id ≡ some m → IsKnown m

  -- The known nodes refer only to known ones.
  abbrev pub IsClosed : Type 0
  IsClosed =
      (n : UaNode) (rs : List Reference)
      → IsKnown n
      → env.browse_both n ≡ some rs
      → All LeadsToKnown rs

  add_childs-Ends :
      (add : UaNode
        → List (Text × ObjectTypeElement)
        → List (Text × ObjectTypeElement) × Result (Unit {0}))
      (bound : ℕ)
      → ((n : UaNode) (es : List (Text × ObjectTypeElement))
          → IsKnown n
          → missing es keys < bound
          → Ends es (add n es))
      → (key : Text) (rs : List Reference) (es : List (Text × ObjectTypeElement))
      → All LeadsToKnown rs
      → missing es keys < bound
      → Ends es (add_childs env add key rs es)
  unfolding add_childs
  add_childs-Ends add bound h key [] es a l = (λ j x. x, tt)
  add_childs-Ends add bound h key (r ∷ rs) es (k, a) l = elim (Bool-cases r.is_forward) [
    | inr f ↦ rw (add_childs, f) (add_childs-Ends add bound h key rs es a l)
    | inl f ↦ elim (Option-cases (get_node env.manager r.node_id)) [
      | inl e ↦ rw (add_childs, f, e) (λ j x. x, tt)
      | inr (m, e) ↦
          let pushed = push_child key r.node_id es in
          let grown : Grows es pushed = λ j x. rw (has-push_child key r.node_id es j) x in
          let fewer = Grows-missing es pushed grown keys in
          let (g, d) =
            Ends-and_then pushed (add m pushed) (add_childs env add key rs)
              (h m pushed (k m e) (omega (arith, fewer, l)))
              (λ fs g.
                add_childs-Ends add bound h key rs fs a
                  (omega (arith, fewer, l, Grows-missing pushed fs g keys))) in
          rw (add_childs, f, e) (λ j x. g j (grown j x), d)
    ]
  ]

  -- The call ends, and its node is an element, too.
  abbrev pub Adds :
      UaNode
      → List (Text × ObjectTypeElement)
      → List (Text × ObjectTypeElement) × Result (Unit {0})
      → Type 0
  Adds n es result = Ends es result × (has result.0 (env.to_xml_string n.node_id) ≡ true)

  Adds-entered :
      (n : UaNode) (parent : UaNodeId) (es : List (Text × ObjectTypeElement))
      (result : List (Text × ObjectTypeElement) × Result (Unit {0}))
      → Ends (put (env.to_xml_string n.node_id) (element env n parent) es) result
      → Adds n es result
  Adds-entered n parent es (fs, r) (g, d) =
      let key = env.to_xml_string n.node_id in
      let e = element env n parent in
      (
        (λ j x. g j (Grows-put key e es j x), d),
        g key (rw (has-put key e es key, text_eq_refl key) refl),
      )

  -- The hierarchical references lead only to nodes with the given keys, one of which is that of the node, and the
  -- stack is deeper than the number of these keys without an element. Then the call ends with a value or an
  -- exception, also if the references form cycles; no element is lost, and the node has one.
  pub add_object_type_elements-Adds :
      (depth : ℕ) (parent : UaNodeId) (n : UaNode) (es : List (Text × ObjectTypeElement))
      → IsClosed
      → IsKnown n
      → missing es keys < depth
      → Adds n es (add_object_type_elements env depth parent n es)
  unfolding add_object_type_elements
  add_object_type_elements-Adds zero parent n es c k l = absurd (omega (arith, l))
  add_object_type_elements-Adds (suc depth) parent n es c k l =
      let key = env.to_xml_string n.node_id in
      let entered = put key (element env n parent) es in
      elim (Option-cases (find text_eq key es)) [
        | inr (w, e) ↦ rw (add_object_type_elements, e) ((λ j x. x, tt), has-find-some key w es e)
        | inl e ↦
            let fewer = missing-put key (element env n parent) es keys (has-find key es e) k in
            elim (Option-cases (env.browse_both n)) [
              | inl b ↦
                  rw (add_object_type_elements, e, b)
                    (Adds-entered n parent es (entered, throws cannot_browse) (λ j x. x, tt))
              | inr (rs, b) ↦
                  rw (add_object_type_elements, e, b)
                    (Adds-entered n parent es
                      (add_childs env (add_object_type_elements env depth n.node_id) key rs entered)
                      (add_childs-Ends (add_object_type_elements env depth n.node_id) depth
                        (λ m fs q x. (add_object_type_elements-Adds depth n.node_id m fs c q x).0)
                        key rs entered (c n rs k b) (omega (arith, fewer, l))))
            ]
      ]
