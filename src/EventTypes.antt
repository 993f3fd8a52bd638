-- ===== src/EventTypes.antt =====
-- src/sasModelProvider/base/EventTypeRegistry.cpp: the event types with their super types, and the
-- nodes of the event fields. Of the SDK's node ids the code uses the equivalence that the map's order
-- gives and the XML text; the registrations with the SDK's event manager have no other result than
-- the index of a field. The walk up the super types is on fuel, one unit for a type.
pub mod Walk
pub mod Data
mod Tests
use opc_ua_server.Prelude.{
  ℕ, zero, suc, Bool, true, false, Option, none, some, List, [], ◌∷◌, ◌++◌, Text, bytes, text_eq,
  show_nat, if◌then◌else◌,
}
use opc_ua_server.Ua.Sdk.{UaNodeId}

pub record Registry : Type 0 where
  -- type, super type
  pub event_types : List (UaNodeId × UaNodeId)
  -- key, node id
  pub event_fields : List (Text × UaNodeId)

-- `std::map`: `find`, and the assignment to `map[key]`.
unfoldable pub find {ℓ κ} : {K : Type ℓ} {V : Type κ} → (K → K → Bool) → K → List (K × V) → Option V
find same k [] = none
find same k ((j, v) ∷ m) = if same k j then some v else find same k m

replace {ℓ κ} : {K : Type ℓ} {V : Type κ} → (K → K → Bool) → K → V → List (K × V) → List (K × V)
replace same k v [] = []
replace same k v ((j, w) ∷ m) = if same k j then (j, v) ∷ m else (j, w) ∷ replace same k v m

unfoldable pub assign {ℓ κ} :
    {K : Type ℓ} {V : Type κ} → (K → K → Bool) → K → V → List (K × V) → List (K × V)
unfolding find replace
assign same k v m = elim (find same k m) [ none ↦ (k, v) ∷ m | some w ↦ replace same k v m ]

module _ (same : UaNodeId → UaNodeId → Bool) where
  unfoldable pub register_event_type : UaNodeId → UaNodeId → Registry → Registry
  unfolding assign
  register_event_type super_type new_type r = record {
    event_types = assign same new_type super_type r.event_types;
    event_fields = r.event_fields;
  }

  -- The loop of getEventFieldNodeId, where `field` looks up the field of a type.
  unfoldable pub walk :
      (UaNodeId → Option UaNodeId)
      → List (UaNodeId × UaNodeId)
      → ℕ
      → UaNodeId
      → Option (Option UaNodeId)
  unfolding find
  walk field types zero t = none
  walk field types (suc n) t = elim (field t) [
    | some f ↦ some (some f)
    | none ↦ elim (find same t types) [ none ↦ some none | some s ↦ walk field types n s ]
  ]

module _ (to_xml_string : UaNodeId → Text) where
  unfoldable pub get_key : UaNodeId → ℕ → Text
  get_key t i = to_xml_string t ++ (bytes ":" ++ show_nat i)

  -- With the index that the SDK gave the field's name.
  unfoldable pub register_event_field : UaNodeId → UaNodeId → ℕ → Registry → Registry
  unfolding assign get_key text_eq
  register_event_field t field i r = record {
    event_types = r.event_types;
    event_fields = assign text_eq (get_key t i) field r.event_fields;
  }

  unfoldable pub field_of : Registry → ℕ → UaNodeId → Option UaNodeId
  unfolding find get_key text_eq
  field_of r i t = find text_eq (get_key t i) r.event_fields

  unfoldable pub get_event_field_node_id :
      (UaNodeId → UaNodeId → Bool) → ℕ → UaNodeId → ℕ → Registry → Option (Option UaNodeId)
  unfolding walk field_of
  get_event_field_node_id same fuel t i r = walk same (field_of r i) r.event_types fuel t
