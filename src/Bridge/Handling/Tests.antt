-- ===== src/Bridge/Handling/Tests.antt =====
-- Three nodes: one is asynchronous, one synchronous, and one is not handled.
use opc_ua_server.Prelude.{
  ℕ, true, false, none, some, List, [], ◌∷◌, ◌≡◌, refl, sym, ◌∙◌, map, inl, inr,
}
use opc_ua_server.Prelude.Int.{pos}
use opc_ua_server.Prelude.Result.{Result, ok, throws, no_conversion, subscription_failed}
use opc_ua_server.Io
use opc_ua_server.Ua.Sdk.{UaNodeId, numeric}
use opc_ua_server.Bridge.{Properties, Variable}
use opc_ua_server.Bridge.Handling.{
  Environment, cache_is_source, cache_is_updated_on_request, update_object_types, update_variables,
}
use opc_ua_server.Bridge.Handling.ObjectTypes.{update_object_types-is_accepted}
use opc_ua_server.Bridge.Handling.Variables.{IsSafe, subscribed, update_variables-settings}
use opc_ua_server.Bridge.Reading.Positions.{targets, Distinct}

abbrev id_of : UaNodeId → Result Io.NodeId
id_of (numeric ns i) = ok (Io.NodeId.numeric (pos ns) (pos i))
id_of t = throws no_conversion

abbrev properties : Properties
properties = record {
  default_handling = some Io.ValueHandling.unhandled;
  nodes = some (
      record {
        node = Io.NodeId.numeric (pos 2) (pos 1);
        payload = some (Io.Variant.node_properties Io.ValueHandling.async);
        exception = none;
      }
      ∷ record {
        node = Io.NodeId.numeric (pos 2) (pos 2);
        payload = some (Io.Variant.node_properties Io.ValueHandling.sync);
        exception = none;
      }
      ∷ []);
}

-- Each node's value is `true`.
abbrev reply : Io.NodeId → Io.NodeData
reply id = record {
  node = id;
  payload = some (Io.Variant.scalar (Io.Scalar.bool true));
  exception = none;
}

abbrev env : Environment
env = record {
  Value = Io.Variant;
  null_value = Io.Variant.scalar (Io.Scalar.bool false);
  convert_node_id = id_of;
  to_value = λ w t. ok w;
  subscribe = λ ids. ok (some (map reply ids));
  set_variable = λ x v. ok tt;
  by_address = λ m. m;
}

abbrev variable : ℕ → Variable
variable i = record { node_id = numeric 2 i; data_type = numeric 0 1 }

abbrev variables : List Variable
variables = variable 2 ∷ variable 1 ∷ variable 3 ∷ []

-- A synchronous object type is refused.
synchronous :
    update_object_types env properties (numeric 2 1 ∷ numeric 2 2 ∷ []) ≡ throws subscription_failed
unfolding update_object_types Io.equals
synchronous = refl

update_object_types-is_accepted_example :
    update_object_types env properties (numeric 2 1 ∷ numeric 2 3 ∷ []) ≡ ok tt
unfolding Io.equals
update_object_types-is_accepted_example =
    update_object_types-is_accepted env properties (numeric 2 1 ∷ numeric 2 3 ∷ []) (tt, (tt, tt))
      tt

env-IsSafe : IsSafe env properties
env-IsSafe = record { values_defined = λ w t. tt; set_defined = λ x v. tt }

one_target : Distinct (targets 0 (map (subscribed env properties) variables))
unfolding Io.equals
one_target k id i j (inl p) (inl q) h = sym p.1 ∙ q.1
one_target k id i j (inl p) (inr e) h = elim e [ ]
one_target k id i j (inr e) f h = elim e [ ]

update_variables-settings_example :
    update_variables env properties variables
    ≡ ok (
      some cache_is_updated_on_request ∷ some cache_is_source ∷ some cache_is_source ∷ [],
      (1, Io.Variant.scalar (Io.Scalar.bool true)) ∷ [],
    )
unfolding Io.equals
update_variables-settings_example =
    update_variables-settings env properties reply true variables env-IsSafe (tt, (tt, (tt, tt)))
      (λ id. refl) (λ ids. refl) (λ ws id i. (λ e. e, λ e. e)) one_target
