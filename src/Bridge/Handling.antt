-- ===== src/Bridge/Handling.antt =====
-- src/sasModelProvider/base/HaNodeManagerIODataProviderBridge.cpp, the two methods updateValueHandling.
-- An exception that is kept for a later throw is a Boolean: there is one.
pub mod ObjectTypes
pub mod Variables
mod Tests
use opc_ua_server.Prelude.{
  ℕ, zero, suc, Bool, true, false, not, ◌||◌, ◌&&◌, Option, none, some, List, [], ◌∷◌,
  if◌then◌else◌, length, ◌==◌,
}
use opc_ua_server.Prelude.Result.{
  Result, ok, throws, undefined, ◌>>=◌, fmap, synchronous_type, subscription_failed,
}
use opc_ua_server.Common.Exception.{Exception}
use opc_ua_server.Io
use opc_ua_server.Ua.Sdk.{UaNodeId}
use opc_ua_server.Bridge.{Properties, Variable, get_value_handling}
use opc_ua_server.Bridge.Reading.{index_of, node_ids}

-- The components that the methods call: the converter, the data provider and the node manager. The map
-- asyncVariables has pointers as its keys, so its order is that of their addresses, `by_address`.
pub record Environment : Type 1 where
  pub Value : Type 0
  pub null_value : Value
  pub convert_node_id : UaNodeId → Result Io.NodeId
  pub to_value : Io.Variant → UaNodeId → Result Value
  pub subscribe : List Io.NodeId → Result (Option (List Io.NodeData))
  pub set_variable : Variable → Value → Result (Unit {0})
  pub by_address : List (Io.NodeId × ℕ) → List (Io.NodeId × ℕ)

-- setValueHandling(UaVariable_Value_…)
pub data Setting : Type 0 where
  cache_is_source cache_is_updated_on_request : Setting

unfoldable pub has_exception : Io.NodeData → Bool
has_exception d = elim d.exception [ none ↦ false | some e ↦ true ]

unfoldable pub any_exception : List Io.NodeData → Bool
unfolding has_exception
any_exception [] = false
any_exception (d ∷ ds) = has_exception d || any_exception ds

unfoldable pub results_of : Option (List Io.NodeData) → List Io.NodeData
results_of none = []
results_of (some ds) = ds

-- The switch for an object type: only an asynchronous one is subscribed to.
unfoldable pub to_subscribe : Io.NodeId → Io.ValueHandling → Result (Option Io.NodeId)
to_subscribe id Io.ValueHandling.unhandled = ok none
to_subscribe id Io.ValueHandling.async = ok (some id)
to_subscribe id Io.ValueHandling.sync = throws synchronous_type

-- The switch for a variable: its setting, and whether it is subscribed to.
unfoldable pub setting_of : Io.ValueHandling → Setting × Bool
setting_of Io.ValueHandling.unhandled = (cache_is_source, false)
setting_of Io.ValueHandling.async = (cache_is_source, true)
setting_of Io.ValueHandling.sync = (cache_is_updated_on_request, false)

module _ (env : Environment) where
  -- The body of the first loop, and its `catch`.
  unfoldable pub asked : Properties → UaNodeId → Result (Option Io.NodeId)
  unfolding get_value_handling to_subscribe
  asked ps t = do id ← env.convert_node_id t; h ← get_value_handling ps id; to_subscribe id h

  unfoldable pub add_asked :
      Result (Option Io.NodeId) → List Io.NodeId × Bool → Result (List Io.NodeId × Bool)
  add_asked undefined acc = undefined
  add_asked (throws e) (ids, failed) = ok (ids, true)
  add_asked (ok none) acc = ok acc
  add_asked (ok (some id)) (ids, failed) = ok (id ∷ ids, failed)

  unfoldable pub gather : Properties → List UaNodeId → Result (List Io.NodeId × Bool)
  unfolding asked add_asked
  gather ps [] = ok ([], false)
  gather ps (t ∷ ts) = gather ps ts >>= add_asked (asked ps t)

  -- The results are looked through while there is no exception.
  unfoldable pub check_results : ℕ → Bool → List Io.NodeData → Bool
  unfolding any_exception
  check_results n failed ds = failed || (not (length ds == n) || any_exception ds)

  -- Whether there is an exception after the call of the data provider.
  unfoldable pub subscribe_all : List Io.NodeId × Bool → Result Bool
  unfolding check_results results_of
  subscribe_all ([], failed) = ok failed
  subscribe_all (id ∷ ids, failed) = elim (env.subscribe (id ∷ ids)) [
    | ok r ↦ ok (check_results (length (id ∷ ids)) failed (results_of r))
    | throws e ↦ ok true
    | undefined ↦ undefined
  ]

  unfoldable pub throw_if : Bool → Result (Unit {0})
  throw_if true = throws subscription_failed
  throw_if false = ok tt

  unfoldable pub update_object_types : Properties → List UaNodeId → Result (Unit {0})
  unfolding gather subscribe_all throw_if
  update_object_types ps ts = gather ps ts >>= subscribe_all >>= throw_if

  -- The same for a variable. What `gather_variables` gives is the setting of each variable, where one
  -- was made, and the asynchronous ones with their places.
  unfoldable pub handled : Properties → Variable → Result (Io.NodeId × (Setting × Bool))
  unfolding get_value_handling setting_of
  handled ps x = do
    id ← env.convert_node_id x.node_id
    h ← get_value_handling ps id
    ok (id, setting_of h)

  unfoldable pub add_handled :
      ℕ
      → Result (Io.NodeId × (Setting × Bool))
      → List (Option Setting) × List (Io.NodeId × ℕ)
      → Result (List (Option Setting) × List (Io.NodeId × ℕ))
  add_handled i undefined acc = undefined
  add_handled i (throws e) (ss, ids) = ok (none ∷ ss, ids)
  add_handled i (ok (id, (s, true))) (ss, ids) = ok (some s ∷ ss, (id, i) ∷ ids)
  add_handled i (ok (id, (s, false))) (ss, ids) = ok (some s ∷ ss, ids)

  unfoldable pub gather_variables :
      Properties → ℕ → List Variable → Result (List (Option Setting) × List (Io.NodeId × ℕ))
  unfolding handled add_handled
  gather_variables ps i [] = ok ([], [])
  gather_variables ps i (x ∷ xs) = gather_variables ps (suc i) xs >>= add_handled i (handled ps x)

  unfoldable pub variable_at : List Variable → ℕ → Option Variable
  variable_at [] i = none
  variable_at (x ∷ xs) zero = some x
  variable_at (x ∷ xs) (suc i) = variable_at xs i

  -- The value of a result without an exception.
  unfoldable pub initial_value : Io.NodeData → Variable → Result env.Value
  initial_value d x = elim d.payload [
    | none ↦ ok env.null_value
    | some w ↦ env.to_value w x.data_type
  ]

  -- setVariable, and the inner `catch`. The variables that were set, with their values.
  unfoldable pub set_initial :
      ℕ → Variable → Result env.Value → List (ℕ × env.Value) → Result (List (ℕ × env.Value))
  set_initial i x undefined done = undefined
  set_initial i x (throws e) done = ok done
  set_initial i x (ok v) done = elim (env.set_variable x v) [
    | ok u ↦ ok ((i, v) ∷ done)
    | throws e ↦ ok done
    | undefined ↦ undefined
  ]

  unfoldable pub set_result :
      List Variable → Option ℕ → Io.NodeData → List (ℕ × env.Value) → Result (List (ℕ × env.Value))
  unfolding variable_at initial_value set_initial has_exception
  set_result xs none d done = ok done
  set_result xs (some i) d done = elim (variable_at xs i) [
    | none ↦ undefined
    | some x ↦ if has_exception d then ok done else set_initial i x (initial_value d x) done
  ]

  -- The second loop. The results are independent, so that of the rest comes first.
  unfoldable pub set_results :
      List Variable → List (Io.NodeId × ℕ) → List Io.NodeData → Result (List (ℕ × env.Value))
  unfolding index_of set_result
  set_results xs m [] = ok []
  set_results xs m (d ∷ ds) = set_results xs m ds >>= set_result xs (index_of d.node m) d

  unfoldable pub subscribe_variables :
      List Variable → List (Io.NodeId × ℕ) → Result (List (ℕ × env.Value))
  unfolding set_results node_ids results_of
  subscribe_variables xs [] = ok []
  subscribe_variables xs (w ∷ ws) = elim (env.subscribe (node_ids (w ∷ ws))) [
    | ok r ↦ set_results xs (env.by_address (w ∷ ws)) (results_of r)
    | throws e ↦ ok []
    | undefined ↦ undefined
  ]

  -- The settings, and the initial values that were set. Nothing is thrown: the `throw` at the end is
  -- commented out.
  unfoldable pub update_variables :
      Properties → List Variable → Result (List (Option Setting) × List (ℕ × env.Value))
  unfolding gather_variables subscribe_variables
  update_variables ps xs = gather_variables ps zero xs >>= λ out.
      fmap (λ done. (out.0, done)) (subscribe_variables xs out.1)
