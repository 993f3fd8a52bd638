-- ===== src/NodeSet.antt =====
-- src/provider/uaNodeSetXml/sasModelProvider/HaNodeManagerNodeSetXml.cpp: what the node manager of an XML
-- model gathers while its nodes are created, and the search for event types. The browsing of the SDK is a
-- parameter. A recursive method has the depth of the stack, and is undefined beneath it. The release of
-- references and the log are left out.
pub mod Created
pub mod Deciding
mod Keys
pub mod Ending
pub mod Cycles
mod Tests
use opc_ua_server.Prelude.{
  ℕ, zero, suc, Bool, true, false, Option, none, some, List, [], ◌∷◌, ◌++◌, Text, text_eq, ltb,
  ◌==◌, if◌then◌else◌,
}
use opc_ua_server.Prelude.Result.{Result, ok, throws, undefined, ◌>>=◌, cannot_browse, unknown_node}
use opc_ua_server.Ua.Sdk.{UaNodeId}
use opc_ua_server.EventTypes.{find}
use opc_ua_server.Browser.{HaNodeManager, NodeClass, UaNode, get_node}

-- A reference that browsing gives, with the number of its reference type's id.
pub record Reference : Type 0 where
  pub node_id : UaNodeId
  pub reference_type : ℕ
  pub is_forward : Bool

-- Browsing gives null for a bad status: the hierarchical references forward, those in both directions, and
-- all references to object types in both directions. `field_index` is what the event manager gives for the
-- browse name of a variable.
pub record Environment : Type 0 where
  pub manager : HaNodeManager
  pub to_xml_string : UaNodeId → Text
  pub browse_forward : UaNode → Option (List Reference)
  pub browse_both : UaNode → Option (List Reference)
  pub browse_types : UaNode → Option (List Reference)
  pub field_index : UaNode → ℕ

pub record ObjectTypeElement : Type 0 where
  pub type_id : UaNodeId
  pub node_class : NodeClass
  pub parent : UaNodeId
  pub childs : List UaNodeId

-- OpcUa_BrowseDirection
pub data Direction : Type 0 where
  forward inverse both : Direction

-- What a reference means for the search for event types.
pub data Meaning : Type 0 where
  generates subtype other : Meaning

abbrev pub generates_event : ℕ
generates_event = 41

abbrev pub has_subtype : ℕ
has_subtype = 45

-- The order of std::string.
unfoldable pub text_less : Text → Text → Bool
text_less s [] = false
text_less [] (y ∷ t) = true
text_less (x ∷ s) (y ∷ t) =
    let rest = text_less s t in if ltb x y then true else if ltb y x then false else rest

-- `map[key] = value`, in the order of the keys.
unfoldable pub put {ℓ} : {A : Type ℓ} → Text → A → List (Text × A) → List (Text × A)
unfolding text_eq text_less
put k v [] = (k, v) ∷ []
put k v ((j, w) ∷ m) =
    let rest = put k v m in
    if text_eq k j then (j, v) ∷ m else if text_less k j then (k, v) ∷ (j, w) ∷ m else (j, w) ∷ rest

-- The list of children is that of the element in the map.
unfoldable pub push_child :
    Text → UaNodeId → List (Text × ObjectTypeElement) → List (Text × ObjectTypeElement)
unfolding text_eq
push_child k c [] = []
push_child k c ((j, e) ∷ m) =
    let rest = push_child k c m in
    if text_eq k j then (j, record e { childs = e.childs ++ c ∷ [] }) ∷ m else (j, e) ∷ rest

-- The members stay when a call throws.
unfoldable pub and_then {ℓ} :
    {S : Type ℓ} → S × Result (Unit {0}) → (S → S × Result (Unit {0})) → S × Result (Unit {0})
and_then (s, undefined) next = (s, undefined)
and_then (s, throws e) next = (s, throws e)
and_then (s, ok u) next = next s

abbrev pub is_followed : NodeClass → Bool
is_followed NodeClass.variable = true
is_followed NodeClass.object = true
is_followed c = false

-- Whether a reference HasSubtype is followed.
unfoldable pub is_allowed : Direction → Bool → Bool
is_allowed Direction.both f = true
is_allowed Direction.forward f = f
is_allowed Direction.inverse true = false
is_allowed Direction.inverse false = true

unfoldable pub direction_of : Bool → Direction
direction_of true = Direction.forward
direction_of false = Direction.inverse

unfoldable pub meaning : Direction → Reference → Meaning
unfolding is_allowed
meaning d r =
    if r.reference_type == generates_event
    then (if r.is_forward then Meaning.other else Meaning.generates)
    else if r.reference_type == has_subtype
    then (if is_allowed d r.is_forward then Meaning.subtype else Meaning.other)
    else Meaning.other

module _ (env : Environment) where
  -- Only a variable is added to the list.
  unfoldable pub enter_variable : UaNode → List (Text × UaNodeId) → List (Text × UaNodeId)
  unfolding put
  enter_variable n vs = elim n.node_class [
    | NodeClass.variable ↦ put (env.to_xml_string n.node_id) n.node_id vs
    | c ↦ vs
  ]

  -- The loop over the references, where `add` is the recursive call.
  unfoldable pub add_referenced :
      (UaNode → List (Text × UaNodeId) → List (Text × UaNodeId) × Result (Unit {0}))
      → List Reference
      → List (Text × UaNodeId)
      → List (Text × UaNodeId) × Result (Unit {0})
  unfolding get_node and_then
  add_referenced add [] vs = (vs, ok tt)
  add_referenced add (r ∷ rs) vs = elim (get_node env.manager r.node_id) [
    | none ↦ (vs, throws unknown_node)
    | some m ↦ elim (is_followed m.node_class) [
      | false ↦ add_referenced add rs vs
      | true ↦ and_then (add m vs) (add_referenced add rs)
    ]
  ]

  unfoldable pub add_variables :
      ℕ → UaNode → List (Text × UaNodeId) → List (Text × UaNodeId) × Result (Unit {0})
  unfolding find text_eq enter_variable add_referenced
  add_variables zero n vs = (vs, undefined)
  add_variables (suc depth) n vs = elim (find text_eq (env.to_xml_string n.node_id) vs) [
    | some v ↦ (vs, ok tt)
    | none ↦ elim (env.browse_forward n) [
      | none ↦ (enter_variable n vs, throws cannot_browse)
      | some rs ↦ add_referenced (add_variables depth) rs (enter_variable n vs)
    ]
  ]

  -- The loop over the references of the element with the given key; only those forward count.
  unfoldable pub add_childs :
      (UaNode
        → List (Text × ObjectTypeElement)
        → List (Text × ObjectTypeElement) × Result (Unit {0}))
      → Text
      → List Reference
      → List (Text × ObjectTypeElement)
      → List (Text × ObjectTypeElement) × Result (Unit {0})
  unfolding get_node and_then push_child
  add_childs add key [] es = (es, ok tt)
  add_childs add key (r ∷ rs) es = elim r.is_forward [
    | false ↦ add_childs add key rs es
    | true ↦ elim (get_node env.manager r.node_id) [
      | none ↦ (es, throws unknown_node)
      | some m ↦ and_then (add m (push_child key r.node_id es)) (add_childs add key rs)
    ]
  ]

  abbrev pub element : UaNode → UaNodeId → ObjectTypeElement
  element n parent = record {
    type_id = n.node_id;
    node_class = n.node_class;
    parent = parent;
    childs = [];
  }

  unfoldable pub add_object_type_elements :
      ℕ
      → UaNodeId
      → UaNode
      → List (Text × ObjectTypeElement)
      → List (Text × ObjectTypeElement) × Result (Unit {0})
  unfolding find text_eq put add_childs
  add_object_type_elements zero parent n es = (es, undefined)
  add_object_type_elements (suc depth) parent n es =
      let key = env.to_xml_string n.node_id in
      let entered = put key (element n parent) es in
      elim (find text_eq key es) [
        | some e ↦ (es, ok tt)
        | none ↦ elim (env.browse_both n) [
          | none ↦ (entered, throws cannot_browse)
          | some rs ↦ add_childs (add_object_type_elements depth n.node_id) key rs entered
        ]
      ]

  -- The loop over the references, where `go` is the recursive call.
  unfoldable pub search_types :
      (UaNode → Direction → Result Bool) → Direction → List Reference → Result Bool
  unfolding get_node meaning direction_of
  search_types go d [] = ok false
  search_types go d (r ∷ rs) = elim (meaning d r) [
    | Meaning.generates ↦ ok true
    | Meaning.other ↦ search_types go d rs
    | Meaning.subtype ↦ elim (get_node env.manager r.node_id) [
      | none ↦ throws unknown_node
      | some m ↦ go m (direction_of r.is_forward) >>= λ b. elim b [
        | true ↦ ok true
        | false ↦ search_types go d rs
      ]
    ]
  ]

  unfoldable pub is_event_type : ℕ → UaNode → Direction → Result Bool
  unfolding search_types
  is_event_type zero n d = undefined
  is_event_type (suc depth) n d = elim (env.browse_types n) [
    | none ↦ throws cannot_browse
    | some rs ↦ search_types (is_event_type depth) d rs
  ]
