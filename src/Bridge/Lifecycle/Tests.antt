-- ===== src/Bridge/Lifecycle/Tests.antt =====
-- A provider with default properties and two nodes, one that refuses the node properties, and starts
-- of the bridge where one other object is live.
use opc_ua_server.Prelude.{ℕ, true, false, none, some, [], ◌∷◌, ◌≡◌, refl}
use opc_ua_server.Prelude.Int.{pos}
use opc_ua_server.Prelude.Result.{ok, throws, undefined, no_conversion}
use opc_ua_server.Io
use opc_ua_server.Bridge.Lifecycle.{
  Store, Provider, created, allocate, remove, delete, allocate_entries, allocate_default,
  allocate_nodes, from_node_properties, from_default_properties, from_node_browser, after_start_up,
}
use opc_ua_server.Bridge.Lifecycle.Balance.{run, run-balanced}

abbrev store : Store
store = record { next = 5; live = 4 ∷ [] }

abbrev node : ℕ → Io.NodeData
node i = record {
  node = Io.NodeId.numeric (pos 2) (pos i);
  payload = some (Io.Variant.node_properties Io.ValueHandling.sync);
  exception = none;
}

abbrev provider : Provider
provider = record {
  set_node_browser = ok tt;
  get_default_node_properties = ok (some Io.ValueHandling.async);
  get_node_properties = ok (some (node 1 ∷ node 2 ∷ []));
}

abbrev refusing : Provider
refusing = record provider { get_node_properties = throws no_conversion }

started :
    after_start_up provider created store
    ≡ ok (
      true,
      (
        record {
          node_browser = some 5;
          subscriber_callback = some 6;
          default_properties = some 7;
          node_properties = some (8, 10 ∷ 9 ∷ []);
          converter = some 11;
        },
        record { next = 12; live = 11 ∷ 10 ∷ 9 ∷ 8 ∷ 7 ∷ 6 ∷ 5 ∷ 4 ∷ [] },
      ),
    )
unfolding after_start_up from_node_browser from_default_properties from_node_properties allocate
    allocate_entries allocate_default allocate_nodes created
started = refl

-- An object that is not live is deleted.
deleted_twice : delete (some 7) store ≡ undefined
unfolding delete remove
deleted_twice = refl

run-balanced_example : run refusing store ≡ ok (false, (true, 4 ∷ []))
run-balanced_example =
    run-balanced refusing store
      record { browser_defined = tt; default_defined = tt; nodes_defined = tt }
