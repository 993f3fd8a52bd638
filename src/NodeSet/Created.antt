-- ===== src/NodeSet/Created.antt =====
-- src/provider/uaNodeSetXml/sasModelProvider/HaNodeManagerNodeSetXml.cpp, allNodesAndReferencesCreated, and the
-- start and shutdown. The two methods updateValueHandling of the bridge, and its start and shutdown, are parameters.
-- The exception that is only logged is a Boolean: there is one.
use opc_ua_server.Prelude.{
  ℕ, Bool, true, false, ◌||◌, Option, none, some, List, [], ◌∷◌, ◌++◌, Text, text_eq, if◌then◌else◌,
}
use opc_ua_server.Prelude.Result.{Result, ok, throws, undefined, ◌>>=◌, fmap}
use opc_ua_server.Ua.Sdk.{UaNodeId}
use opc_ua_server.EventTypes.{Registry, find, register_event_type, register_event_field}
use opc_ua_server.Browser.{NodeClass, UaNode, get_variable, get_object_type}
use opc_ua_server.NodeSet.{
  Environment, ObjectTypeElement, Direction, is_event_type, add_variables, add_object_type_elements,
}

pub record State : Type 0 where
  pub object_type_elements : List (Text × ObjectTypeElement)
  pub variables : List (Text × UaNodeId)
  pub event_type_registry : Registry

pub record Bridge : Type 0 where
  pub update_types : List UaNode → Result (Unit {0})
  pub update_variables : List UaNode → Result (Unit {0})

-- The object types for the bridge, the registry, and whether there is an exception.
pub record Registered : Type 0 where
  pub object_types : List UaNode
  pub registry : Registry
  pub has_exception : Bool

-- The `catch` block of a call.
unfoldable pub failing : Result (Unit {0}) → Result Bool
failing (ok u) = ok false
failing (throws e) = ok true
failing undefined = undefined

abbrev pub is_object_type : NodeClass → Bool
is_object_type NodeClass.object_type = true
is_object_type c = false

module _ (env : Environment) (same : UaNodeId → UaNodeId → Bool) (depth : ℕ) where
  -- The children that are variables are fields of the event type.
  unfoldable pub register_fields : UaNodeId → List UaNodeId → Registry → Registry
  unfolding get_variable register_event_field
  register_fields t [] g = g
  register_fields t (c ∷ cs) g = elim (get_variable env.manager c) [
    | none ↦ register_fields t cs g
    | some v ↦
        register_fields t cs (register_event_field env.to_xml_string t c (env.field_index v) g)
  ]

  unfoldable pub register_type : ObjectTypeElement → Registry → Registry
  unfolding register_event_type register_fields
  register_type e g =
      register_fields e.type_id e.childs (register_event_type same e.parent e.type_id g)

  -- What the answer of isEventType means for an element.
  unfoldable pub registered :
      ObjectTypeElement → UaNode → Result Bool → Registered → Result Registered
  unfolding register_type
  registered e n undefined s = undefined
  registered e n (throws why) s = ok record s { has_exception = true }
  registered e n (ok false) s = ok s
  registered e n (ok true) s =
      ok record s { object_types = s.object_types ++ n ∷ []; registry = register_type e s.registry }

  -- The first loop. A type that the node browser does not know is a null pointer.
  unfoldable pub register_types : List (Text × ObjectTypeElement) → Registered → Result Registered
  unfolding registered is_event_type get_object_type
  register_types [] s = ok s
  register_types ((k, e) ∷ es) s = elim (is_object_type e.node_class) [
    | false ↦ register_types es s
    | true ↦ elim (get_object_type env.manager e.type_id) [
      | none ↦ undefined
      | some n ↦ registered e n (is_event_type env depth n Direction.both) s >>= λ next.
          register_types es next
    ]
  ]

  -- The second loop: the variables that are no part of an object type.
  unfoldable pub own_variables :
      List (Text × ObjectTypeElement) → List (Text × UaNodeId) → Result (List UaNode)
  unfolding find text_eq get_variable
  own_variables es [] = ok []
  own_variables es ((k, id) ∷ vs) = elim (find text_eq k es) [
    | some e ↦ own_variables es vs
    | none ↦ elim (get_variable env.manager id) [
      | none ↦ undefined
      | some v ↦ fmap (λ rest. v ∷ rest) (own_variables es vs)
    ]
  ]

  -- The Boolean is whether an exception is logged.
  unfoldable pub all_nodes_and_references_created : Bridge → State → Result (State × Bool)
  unfolding register_types own_variables failing
  all_nodes_and_references_created b s = do
    r ←
        register_types s.object_type_elements
          record { object_types = []; registry = s.event_type_registry; has_exception = false }
    types_failed ← failing (b.update_types r.object_types)
    vs ← own_variables s.object_type_elements s.variables
    variables_failed ← failing (b.update_variables vs)
    ok (
      record { object_type_elements = []; variables = []; event_type_registry = r.registry },
      r.has_exception || (types_failed || variables_failed),
    )

  -- The call-backs of the SDK for a variable or an object, and for an object type, with its parent.
  unfoldable pub node_created : UaNode → State → State × Result (Unit {0})
  unfolding add_variables
  node_created n s =
      let (vs, r) = add_variables env depth n s.variables in (record s { variables = vs }, r)

  unfoldable pub object_type_created : UaNodeId → UaNode → State → State × Result (Unit {0})
  unfolding add_object_type_elements
  object_type_created parent n s =
      let (es, r) = add_object_type_elements env depth parent n s.object_type_elements in
      (record s { object_type_elements = es }, r)

-- The bridge of the node manager, which has no initial value, and the namespaces that have a factory.
pub record Started : Type 0 where
  pub bridge : Option (Unit {0})
  pub namespaces : List ℕ

-- The statuses of the base class and of the bridge are good or not.
unfoldable pub after_start_up : ℕ → Bool → Bool → Started → Started × Bool
after_start_up ns base_good bridge_good s =
    if base_good
    then (record { bridge = some tt; namespaces = ns ∷ s.namespaces }, bridge_good)
    else (s, false)

-- The bridge is called, whatever the start gave.
unfoldable pub before_shut_down : Bool → Bool → Started → Result (Started × Bool)
before_shut_down bridge_good base_good s = elim s.bridge [
  | none ↦ undefined
  | some b ↦ ok (record s { bridge = none }, (if bridge_good then base_good else false))
]
