-- ===== src/Bridge/Reading/Tests.antt =====
-- Three variables, of which the values of one are not handled and the node id of another does not convert.
use opc_ua_server.Prelude.{
  ℕ, ◌≡◌, refl, sym, ◌∙◌, true, false, none, some, [], ◌∷◌, map, inl, inr, Bool-cases,
}
use opc_ua_server.Prelude.Int.{pos}
use opc_ua_server.Prelude.Result.{Result, ok, throws, no_conversion, invalid_id_type, Defined}
use opc_ua_server.Io
use opc_ua_server.Ua.Sdk.{UaNodeId, numeric, string, guid, opaque}
use opc_ua_server.Bridge.{Properties, Variable}
use opc_ua_server.Bridge.Reading.{Source, read_values}
use opc_ua_server.Bridge.Reading.Answers.{read_values-cells, results, with_handling, with_id}
use opc_ua_server.Bridge.Policy.{policy}
use opc_ua_server.Bridge.Reading.Positions.{targets, Distinct}

abbrev node : UaNodeId → Result Io.NodeId
node (numeric ns id) = ok (Io.NodeId.numeric (pos ns) (pos id))
node id = throws invalid_id_type

abbrev number : Io.Variant → UaNodeId → Result ℕ
number (Io.Variant.scalar (Io.Scalar.ulong n)) t = ok n
number v t = throws no_conversion

-- Every node has the value 5.
abbrev reply : Io.NodeId → Io.NodeData
reply id = record {
  node = id;
  payload = some (Io.Variant.scalar (Io.Scalar.ulong 5));
  exception = none;
}

abbrev fives : Source
fives = record {
  Value = ℕ;
  null_value = 0;
  convert_node_id = node;
  to_value = number;
  read = λ ids. ok (some (map reply ids));
  by_address = λ ws. ws;
}

abbrev level : Variable
level = record { node_id = numeric 2 1; data_type = numeric 0 7 }

-- Its node id cannot be converted.
abbrev opaque_node : Variable
opaque_node = record { node_id = opaque 2; data_type = numeric 0 7 }

abbrev hidden : Variable
hidden = record { node_id = numeric 2 9; data_type = numeric 0 7 }

abbrev properties : Properties
properties = record {
  default_handling = some Io.ValueHandling.sync;
  nodes = some (
      record {
        node = Io.NodeId.numeric (pos 2) (pos 9);
        payload = some (Io.Variant.node_properties Io.ValueHandling.unhandled);
        exception = none;
      }
      ∷ []);
}

with_handling-Defined :
    (id : Io.NodeId) → Defined (with_handling fives reply id (policy properties id))
with_handling-Defined id = elim (Bool-cases (Io.equals id (Io.NodeId.numeric (pos 2) (pos 9)))) [
  | inl e ↦ rw e tt
  | inr e ↦ rw e tt
]

with_id-Defined : (t : UaNodeId) → Defined (with_id fives reply properties (node t))
with_id-Defined (numeric ns id) = with_handling-Defined (Io.NodeId.numeric (pos ns) (pos id))
with_id-Defined (string ns s) = tt
with_id-Defined (guid ns) = tt
with_id-Defined (opaque ns) = tt

number-Defined : (w : Io.Variant) (t : UaNodeId) → Defined (number w t)
number-Defined (Io.Variant.scalar (Io.Scalar.ulong n)) t = tt
number-Defined w t = tt

one_target :
    Distinct (targets 0 (results fives reply properties (opaque_node ∷ hidden ∷ level ∷ [])))
unfolding Io.equals
one_target k id i j (inl p) (inl q) h = sym p.1 ∙ q.1
one_target k id i j (inl p) (inr e) h = elim e [ ]
one_target k id i j (inr e) f h = elim e [ ]

-- The second variable is not handled.
read_values-cells_example :
    read_values fives properties (opaque_node ∷ hidden ∷ level ∷ [])
    ≡ ok ((none, false) ∷ (none, false) ∷ (some 5, true) ∷ [], false)
unfolding Io.equals
read_values-cells_example =
    read_values-cells fives reply properties (opaque_node ∷ hidden ∷ level ∷ [])
      (λ x. with_id-Defined x.node_id) number-Defined (λ id. refl) (λ ids. refl)
      (λ ws id i. (λ e. e, λ e. e)) one_target
