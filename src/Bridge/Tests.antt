-- ===== src/Bridge/Tests.antt =====
-- A bridge with numbers as values, of which 0 cannot be converted.
use opc_ua_server.Prelude.{
  ℕ, zero, suc, ◌≡◌, refl, ◌⊎◌, inl, inr, Bool-cases, true, false, Option, none, some, [], ◌∷◌,
}
use opc_ua_server.Prelude.Int.{pos}
use opc_ua_server.Prelude.Result.{Result, ok, throws, fmap, no_conversion, invalid_id_type, Defined}
use opc_ua_server.Io
use opc_ua_server.Ua.Sdk.{UaNodeId, numeric, string, guid, opaque}
use opc_ua_server.Bridge.{
  Properties, Variable, Environment, write_values, before_set_attribute_value,
}
use opc_ua_server.Bridge.Policy.{policy}
use opc_ua_server.Bridge.Writing.{datum, with_handling, with_id, write_values-described}

abbrev node : UaNodeId → Result Io.NodeId
node (numeric ns id) = ok (Io.NodeId.numeric (pos ns) (pos id))
node id = throws invalid_id_type

abbrev number : ℕ → UaNodeId → Result Io.Variant
number zero t = throws no_conversion
number (suc n) t = ok (Io.Variant.scalar (Io.Scalar.ulong (suc n)))

abbrev small : Environment
small = record {
  Value = ℕ;
  convert_node_id = node;
  convert_value = number;
  write = λ ds. ok tt;
  set_variable = λ x v. ok tt;
}

abbrev level : Variable
level = record { node_id = numeric 2 1; data_type = numeric 0 7 }

abbrev hidden : Variable
hidden = record { node_id = numeric 2 9; data_type = numeric 0 7 }

-- Values are forwarded, except those of one node.
abbrev properties : Properties
properties = record {
  default_handling = some Io.ValueHandling.sync;
  nodes = some (
      record {
        node = Io.NodeId.numeric (pos 2) (pos 9);
        payload = some (Io.Variant.node_properties Io.ValueHandling.unhandled);
        exception = none;
      }
      ∷ []);
}

-- A value that cannot be converted, for a node whose values are forwarded.
before_set_attribute_value_zero : before_set_attribute_value small properties level 0 ≡ ok false
unfolding before_set_attribute_value
before_set_attribute_value_zero = refl

-- The second value is not sent, and its code is good.
unsent_good :
    write_values small properties ((level, 5) ∷ (level, 0) ∷ [])
    ≡ ok (record {
      sent = (Io.NodeId.numeric (pos 2) (pos 1), Io.Variant.scalar (Io.Scalar.ulong 5)) ∷ [];
      codes = true ∷ true ∷ [];
      status = false;
    })
unfolding write_values
unsent_good = refl

properties-policy :
    (id : Io.NodeId)
    → (policy properties id ≡ ok Io.ValueHandling.unhandled)
      ⊎ (policy properties id ≡ ok Io.ValueHandling.sync)
properties-policy id = elim (Bool-cases (Io.equals id (Io.NodeId.numeric (pos 2) (pos 9)))) [
  | inl e ↦ inl (rw e refl)
  | inr e ↦ inr (rw e refl)
]

number-Defined :
    (v : ℕ) (t : UaNodeId) (id : Io.NodeId)
    → Defined {A = Option (Io.NodeId × Io.Variant)} (fmap (λ w. some (id, w)) (number v t))
number-Defined zero t id = tt
number-Defined (suc v) t id = tt

with_handling-Defined :
    (id : Io.NodeId) (v : ℕ) (t : UaNodeId)
    → Defined (with_handling small properties id (policy properties id) (number v t))
with_handling-Defined id v t = elim (properties-policy id) [
  | inl e ↦ rw e tt
  | inr e ↦ rw e (number-Defined v t id)
]

with_id-Defined :
    (t : UaNodeId) (x : Variable) (v : ℕ) → Defined (with_id small properties (node t) (x, v))
with_id-Defined (numeric ns id) x v =
    with_handling-Defined (Io.NodeId.numeric (pos ns) (pos id)) v x.data_type
with_id-Defined (string ns s) x v = tt
with_id-Defined (guid ns) x v = tt
with_id-Defined (opaque ns) x v = tt

datum-Defined : (x : Variable × ℕ) → Defined (datum small properties x)
datum-Defined (x, v) = with_id-Defined x.node_id x v

-- The second variable is not handled, and the third value does not convert.
write_values-described_example :
    write_values small properties ((level, 7) ∷ (hidden, 8) ∷ (level, 0) ∷ [])
    ≡ ok (record {
      sent = (Io.NodeId.numeric (pos 2) (pos 1), Io.Variant.scalar (Io.Scalar.ulong 7)) ∷ [];
      codes = true ∷ true ∷ true ∷ [];
      status = false;
    })
unfolding Io.equals
write_values-described_example =
    write_values-described small properties ((level, 7) ∷ (hidden, 8) ∷ (level, 0) ∷ [])
      datum-Defined (λ ds. tt) (λ x v. tt)
