-- ===== src/Provider/Tests.antt =====
-- A Java side that has a number for every node, and a subscriber by its number.
use opc_ua_server.Prelude.{ℕ, true, false, none, some, [], ◌∷◌, ◌≡◌, refl, bytes, if◌then◌else◌}
use opc_ua_server.Prelude.Int.{pos}
use opc_ua_server.Prelude.Result.{ok, undefined}
use opc_ua_server.Io
use opc_ua_server.Binary.Dto
use opc_ua_server.Bridge.{get_value_handling}
use opc_ua_server.Provider.{
  Environment, State, subscribe, unsubscribe, write_nodes, remove_callbacks, remove_first,
  add_callbacks,
}
use opc_ua_server.Provider.Properties.{
  properties, is_listed, ids_none, ids_sync, get_value_handling-properties,
}
use opc_ua_server.Provider.Subscriptions.{unsubscribe-subscribe}

abbrev env : Environment
env = record {
  Object = ℕ;
  Callback = ℕ;
  has_class = true;
  java_read = λ ns t. some 7;
  get_variant = λ x t. ok (Dto.Variant.scalar (Dto.Scalar.int (pos x)));
  update_model = λ n m. (m, ok tt);
  get_param_id = λ n. bytes "NS0|Numeric|6";
  values_changed = λ c n w. ok tt;
}

abbrev level : Io.NodeId
level = Io.NodeId.numeric (pos 2) (pos 1)

abbrev pump : Io.NodeId
pump = Io.NodeId.numeric (pos 2) (pos 2)

abbrev state : State env
state = record {
  namespace_index = pos 2;
  message_id_counter = 1;
  callbacks = (Io.NodeId.numeric (pos 2) (pos 3), 5) ∷ [];
  fields = [];
}

unsubscribe-subscribe_example :
    (unsubscribe env (level ∷ pump ∷ []) (subscribe env (level ∷ pump ∷ []) 9 state).0).callbacks
    ≡ state.callbacks
unfolding Io.equals
unsubscribe-subscribe_example =
    unsubscribe-subscribe env (level ∷ pump ∷ []) 9 state ((refl, tt), (tt, tt))
      ((refl, tt), ((refl, tt), tt))

-- Another subscriber's callback is removed, which is older.
older_removed :
    remove_callbacks env (level ∷ []) (add_callbacks env (level ∷ []) 9 ((level, 5) ∷ []))
    ≡ (level, 9) ∷ []
unfolding remove_callbacks remove_first add_callbacks Io.equals
older_removed = refl

-- Of two null values the second is dereferenced.
two_null_values : write_nodes env ((level, none) ∷ (pump, none) ∷ []) false 1 ≡ undefined
unfolding write_nodes
two_null_values = refl

level_is_asynchronous :
    get_value_handling (properties (pos 2)) level
    ≡ ok (
        if is_listed (pos 2) ids_none level
        then Io.ValueHandling.unhandled
        else if is_listed (pos 2) ids_sync level
        then Io.ValueHandling.sync
        else Io.ValueHandling.async)
level_is_asynchronous = get_value_handling-properties (pos 2) level
