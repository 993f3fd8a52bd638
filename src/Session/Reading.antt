-- ===== src/Session/Reading.antt =====
-- src/binaryServer/HaSession.cpp: the two methods read.
use opc_ua_server.Prelude.{
  ℕ, zero, suc, Bool, true, ◌||◌, Option, none, some, List, [], ◌∷◌, ◌++◌, if◌then◌else◌, ◌==◌, map,
}
use opc_ua_server.Prelude.Result.{Result, ok, throws, undefined, ◌>>=◌, bad_answer}
use opc_ua_server.Ua.Sdk.{UaNodeId}
use opc_ua_server.EventTypes.{find, assign}
use opc_ua_server.Session.{
  Attribute, node_class, value, data_type, UaSession, NodeAttributes, create, object_type_class,
  byte_type, with_session,
}

module _ {ℓ} {A : Type ℓ} where
  unfoldable pub get_at : ℕ → List A → Option A
  get_at i [] = none
  get_at zero (x ∷ xs) = some x
  get_at (suc i) (x ∷ xs) = get_at i xs

  -- A change of an element in its place.
  unfoldable pub change_at : ℕ → (A → A) → List A → List A
  change_at i f [] = []
  change_at zero f (x ∷ xs) = f x ∷ xs
  change_at (suc i) f (x ∷ xs) = x ∷ change_at i f xs

-- The requests for a node, each with the node's place in the result (attrToRead and indexMap).
unfoldable pub requests_of : ℕ → UaNodeId → List Attribute → List (ℕ × (UaNodeId × Attribute))
requests_of i n [] = []
requests_of i n (a ∷ ids) = (i, (n, a)) ∷ requests_of i n ids

unfoldable pub requests : ℕ → List UaNodeId → List Attribute → List (ℕ × (UaNodeId × Attribute))
unfolding requests_of
requests i [] ids = []
requests i (n ∷ ns) ids = requests_of i n ids ++ requests (suc i) ns ids

unfoldable pub attr_to_read : List (ℕ × (UaNodeId × Attribute)) → List (UaNodeId × Attribute)
attr_to_read [] = []
attr_to_read ((i, r) ∷ rs) = r ∷ attr_to_read rs

-- Copies of the attributes that are not null; an exception is copied too.
unfoldable pub or_else {ℓ} : {A : Type ℓ} → Option A → Option A → Option A
or_else none old = old
or_else (some x) old = some x

module _ {Value : Type 0} where
  -- setValue and setDataType after the second reading, and setException.
  unfoldable pub merge : NodeAttributes Value → NodeAttributes Value → NodeAttributes Value
  unfolding or_else
  merge x old = record old {
    value = or_else x.value old.value;
    data_type = or_else x.data_type old.data_type;
    has_exception = x.has_exception || old.has_exception;
  }

  module _ (s : UaSession Value) where
    -- What a result does to the attributes of its node.
    unfoldable pub store : Attribute → Option Value → NodeAttributes Value → NodeAttributes Value
    store a none x = record x { has_exception = true }
    store node_class (some v) x = record x { node_class = some (s.to_int32 v) }
    store value (some v) x = record x { value = some v }
    store data_type (some v) x = record x { data_type = some (s.to_node_id v) }

    -- The loop over the requests: a missing result is out of bounds.
    unfoldable pub store_all :
        List (ℕ × (UaNodeId × Attribute))
        → List (Option Value)
        → List (NodeAttributes Value)
        → Result (List (NodeAttributes Value))
    unfolding store change_at
    store_all [] vs xs = ok xs
    store_all (r ∷ rs) [] xs = undefined
    store_all ((i, (n, a)) ∷ rs) (v ∷ vs) xs = store_all rs vs (change_at i (store a v) xs)

    -- HaSessionPrivate::read; the second part is for at least one request.
    unfoldable pub read_requests :
        List (ℕ × (UaNodeId × Attribute))
        → List (NodeAttributes Value)
        → Result (List (NodeAttributes Value))
    unfolding store_all attr_to_read
    read_requests [] xs = ok xs
    read_requests (r ∷ rs) xs = elim (s.read (attr_to_read (r ∷ rs))) [
      | none ↦ throws bad_answer
      | some vs ↦ store_all (r ∷ rs) vs xs
    ]

    unfoldable pub read_attributes :
        List UaNodeId → List Attribute → Result (List (NodeAttributes Value))
    unfolding read_requests requests create
    read_attributes [] ids = ok []
    read_attributes (n ∷ ns) ids = read_requests (requests zero (n ∷ ns) ids) (map create (n ∷ ns))

    -- The value of an event type: any will do.
    unfoldable pub mark : NodeAttributes Value → NodeAttributes Value
    mark x = record x { value = some s.byte_one; data_type = some byte_type }

    -- The loop over the node classes: the attributes, the readable nodes and retNodeAttrMap, whose
    -- pointers are places in the result. A null node class is dereferenced.
    unfoldable pub classify_node :
        NodeAttributes Value
        → List (NodeAttributes Value) × List UaNodeId
        → Result (List (NodeAttributes Value) × List UaNodeId)
    unfolding mark
    classify_node x (xs, ns) = if x.has_exception then ok (x ∷ xs, ns) else elim x.node_class [
      | none ↦ undefined
      | some c ↦
          if c == object_type_class then ok (mark x ∷ xs, ns) else ok (x ∷ xs, x.node_id ∷ ns)
    ]

    unfoldable pub classify :
        List (NodeAttributes Value) → Result (List (NodeAttributes Value) × List UaNodeId)
    unfolding classify_node
    classify [] = ok ([], [])
    classify (x ∷ xs) = classify xs >>= classify_node x

    module _ (same : UaNodeId → UaNodeId → Bool) where
      -- A later node with the same text takes the place of an earlier one.
      unfoldable pub places :
          ℕ → List (NodeAttributes Value) → List (UaNodeId × ℕ) → List (UaNodeId × ℕ)
      unfolding assign
      places i [] m = m
      places i (x ∷ xs) m =
          places (suc i) xs (if x.has_exception then m else assign same x.node_id i m)

      -- The loop over the values: an unknown text gives a null pointer.
      unfoldable pub merge_all :
          List (UaNodeId × ℕ)
          → List (NodeAttributes Value)
          → List (NodeAttributes Value)
          → Result (List (NodeAttributes Value))
      unfolding find merge change_at
      merge_all m [] xs = ok xs
      merge_all m (v ∷ vs) xs = elim (find same v.node_id m) [
        | none ↦ undefined
        | some i ↦ merge_all m vs (change_at i (merge v) xs)
      ]

      -- With no readable nodes nothing is read or merged.
      unfoldable pub read_values :
          List (NodeAttributes Value) × List UaNodeId → Result (List (NodeAttributes Value))
      unfolding read_attributes merge_all places
      read_values (xs, ns) =
          read_attributes ns (value ∷ data_type ∷ []) >>= λ vs. merge_all (places zero xs []) vs xs

      unfoldable pub read_open : List UaNodeId → Result (List (NodeAttributes Value))
      unfolding read_attributes classify read_values
      read_open ns = read_attributes ns (node_class ∷ []) >>= classify >>= read_values

-- HaSession::read
unfoldable pub read :
    {Value : Type 0}
    → (UaNodeId → UaNodeId → Bool)
    → Option (UaSession Value)
    → List UaNodeId
    → Result (List (NodeAttributes Value))
unfolding with_session read_open
read same session [] = ok []
read same session (n ∷ ns) = with_session session (λ s. read_open s same (n ∷ ns))
