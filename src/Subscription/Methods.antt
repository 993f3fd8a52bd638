-- ===== src/Subscription/Methods.antt =====
-- src/binaryServer/HaSubscription.cpp: the methods, and the calls of the SDK's thread. The mutex makes
-- each of them one step.
use opc_ua_server.Prelude.{
  ℕ, suc, Bool, true, false, List, [], ◌∷◌, Option, none, some, if◌then◌else◌,
}
use opc_ua_server.Prelude.Result.{Result, ok, undefined, ◌>>=◌, fmap}
use opc_ua_server.Ua.Sdk.{UaNodeId}
use opc_ua_server.EventTypes.{find, assign}
use opc_ua_server.Subscription.Handles.{insert, lookup}
use opc_ua_server.Subscription.{
  State, Server, Outcome, EventField, NodeAttributes, MonitoredItem, Target, returned, thrown,
  stuck, cannot_remove_item, cannot_remove_items, and_then, with_items, take_handle, target_of,
  new_item, create_items, ensure_subscription, delete_subscription, choose, forget, release,
  is_empty,
}

-- The numbers of the chosen items, and their handles.
unfoldable pub ids_of : List (ℕ × ℕ) → List ℕ
ids_of [] = []
ids_of ((h, i) ∷ cs) = i ∷ ids_of cs

-- What a callback's argument holds: a value, or the exception for a bad status.
pub data Delivery (Value : Type 0) : Type 0 where
  value : UaNodeId → Value → Delivery Value
  failed : UaNodeId → Delivery Value

-- A field of a received event: its exception, or the value received.
pub data FieldValue (Value : Type 0) : Type 0 where
  kept : EventField → FieldValue Value
  received : EventField → Value → FieldValue Value

-- A new item under a handle that is taken.
unfoldable pub enter : ℕ → MonitoredItem → State → State
unfolding insert
enter h x s = record {
  client_handle_counter = suc h;
  subscription = s.subscription;
  monitored_items = insert h x s.monitored_items;
}

unfoldable pub after_prepare : Server → Result (State × List (ℕ × Target)) → Outcome
unfolding and_then ensure_subscription create_items
after_prepare srv (ok (s, rs)) = and_then (ensure_subscription srv s) (create_items srv rs)
after_prepare srv r = stuck

unfoldable pub finish_remove : Server → State → Result (List (ℕ × MonitoredItem) × Bool) → Outcome
unfolding delete_subscription is_empty
finish_remove srv s (ok (ms, true)) = thrown (with_items ms s) cannot_remove_item
finish_remove srv s (ok (ms, false)) = release srv (with_items ms s)
finish_remove srv s r = stuck

unfoldable pub remove_chosen : Server → List (ℕ × ℕ) → State → Outcome
unfolding forget finish_remove ids_of
remove_chosen srv [] s = returned s
remove_chosen srv (c ∷ cs) s = elim s.subscription [
  | none ↦ stuck
  | some i ↦ elim (srv.delete_items i (ids_of (c ∷ cs))) [
    | none ↦ thrown s cannot_remove_items
    | some answers ↦ finish_remove srv s (forget (c ∷ cs) answers s.monitored_items)
  ]
]

unfoldable pub nodes_of : List (ℕ × MonitoredItem) → List UaNodeId
nodes_of [] = []
nodes_of ((h, x) ∷ ms) = x.node_attr.node_id ∷ nodes_of ms

unfoldable pub attributes_of : List (ℕ × MonitoredItem) → List NodeAttributes
attributes_of [] = []
attributes_of ((h, x) ∷ ms) = x.node_attr ∷ attributes_of ms

-- The `catch`: an exception goes to the log.
unfoldable pub logged : Outcome → Outcome
logged (thrown s e) = returned s
logged r = r

module _ (same : UaNodeId → UaNodeId → Bool) where
  -- Without the fields of an event type the iterator at the end is dereferenced.
  unfoldable pub fields_of :
      NodeAttributes → List (UaNodeId × List EventField) → Result (Option (List EventField))
  unfolding find
  fields_of a m =
      if a.is_object_type
      then elim (find same a.node_id m) [ none ↦ undefined | some fs ↦ ok (some fs) ]
      else ok none

  -- The loop over the nodes: the items enter the map before the server knows of them.
  unfoldable pub prepare :
      List NodeAttributes
      → List (UaNodeId × List EventField)
      → State
      → Result (State × List (ℕ × Target))
  unfolding fields_of take_handle enter target_of
  prepare [] m s = ok (s, [])
  prepare (a ∷ attrs) m s = do
    fs ← fields_of a m
    h ← take_handle s
    out ← prepare attrs m (enter h (new_item a fs) s)
    ok (out.0, (h, target_of a fs) ∷ out.1)

  unfoldable pub add :
      Server → List NodeAttributes → List (UaNodeId × List EventField) → State → Outcome
  unfolding prepare after_prepare
  add srv [] m s = returned s
  add srv (a ∷ attrs) m s = after_prepare srv (prepare (a ∷ attrs) m s)

  -- With no node ids the method returns at once, as it does when no item is chosen.
  unfoldable pub remove : Server → List UaNodeId → State → Outcome
  unfolding choose remove_chosen
  remove srv ns s = remove_chosen srv (choose same ns s.monitored_items) s

  unfoldable pub remove_all : Server → State → Outcome
  unfolding nodes_of remove
  remove_all srv s = remove srv (nodes_of s.monitored_items) s

  -- The items in the map's order, a later item of the same node in place of an earlier one.
  unfoldable pub collect_fields :
      List (ℕ × MonitoredItem)
      → List (UaNodeId × List EventField)
      → List (UaNodeId × List EventField)
  unfolding assign
  collect_fields [] m = m
  collect_fields ((h, x) ∷ ms) m = elim x.event_fields [
    | none ↦ collect_fields ms m
    | some fs ↦ collect_fields ms (assign same x.node_attr.node_id fs m)
  ]

  -- For the status BadSubscriptionIdInvalid, or another one. The log wants the subscription's id.
  unfoldable pub subscription_status_changed : Server → Bool → State → Outcome
  unfolding and_then logged delete_subscription attributes_of collect_fields add
  subscription_status_changed srv is_invalid s = elim s.subscription [
    | none ↦ stuck
    | some i ↦
        if is_invalid
        then logged (
            and_then (delete_subscription srv (with_items [] s))
              (add srv (attributes_of s.monitored_items) (collect_fields s.monitored_items [])))
        else returned s
  ]

module _ {Value : Type 0} where
  -- The callback's exceptions go to the log, so the calls do not depend on it.
  unfoldable pub data_change :
      List (ℕ × Option Value) → List (ℕ × MonitoredItem) → List (Delivery Value)
  unfolding lookup
  data_change [] ms = []
  data_change ((h, v) ∷ ns) ms =
      let rest = data_change ns ms in
      elim (lookup h ms) [
        | none ↦ rest
        | some x ↦ elim v [
          | none ↦ failed x.node_attr.node_id ∷ rest
          | some w ↦ value x.node_attr.node_id w ∷ rest
        ]
      ]

  unfoldable pub field_values : List EventField → List Value → Result (List (FieldValue Value))
  field_values [] vs = ok []
  field_values (f ∷ fs) vs =
      if f.has_exception
      then (elim vs [
        | [] ↦ fmap (λ out. kept f ∷ out) (field_values fs [])
        | v ∷ rest ↦ fmap (λ out. kept f ∷ out) (field_values fs rest)
      ])
      else elim vs [
        | [] ↦ undefined
        | v ∷ rest ↦ fmap (λ out. received f v ∷ out) (field_values fs rest)
      ]

  -- `monitoredItems[handle]` makes a null item for an unknown handle, and an item of a variable has no
  -- fields: both are null pointers that are dereferenced.
  unfoldable pub new_events :
      List (ℕ × List Value)
      → List (ℕ × MonitoredItem)
      → Result (List (UaNodeId × List (FieldValue Value)))
  unfolding lookup field_values
  new_events [] ms = ok []
  new_events ((h, vs) ∷ es) ms = elim (lookup h ms) [
    | none ↦ undefined
    | some x ↦ elim x.event_fields [
      | none ↦ undefined
      | some fs ↦ do
        out ← field_values fs vs
        rest ← new_events es ms
        ok ((x.node_attr.node_id, out) ∷ rest)
    ]
  ]
