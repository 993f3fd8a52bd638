-- ===== src/Bridge.antt =====
-- src/sasModelProvider/base/HaNodeManagerIODataProviderBridge.cpp: the value handling of a node, and
-- the writing of values. The exception that the code keeps for its log is a Boolean: there is one.
pub mod Policy
pub mod Writing
pub mod Reading
pub mod Calls
pub mod Handling
pub mod Changes
pub mod Lifecycle
mod Tests
use opc_ua_server.Prelude.{
  ℕ, Bool, true, false, not, ◌||◌, Option, none, some, List, [], ◌∷◌, if◌then◌else◌, map,
}
use opc_ua_server.Prelude.Result.{Result, ok, throws, undefined, ◌>>=◌, fmap, no_value_handling}
use opc_ua_server.Io
use opc_ua_server.Ua.Sdk.{UaNodeId}

-- dfltNodeProps and nodePropsMap, which the data provider returned at the start.
pub record Properties : Type 0 where
  pub default_handling : Option Io.ValueHandling
  pub nodes : Option (List Io.NodeData)

-- Node properties that may be null, and a cast of other data to node properties.
unfoldable pub handling_of : Option Io.Variant → Result Io.ValueHandling
handling_of none = throws no_value_handling
handling_of (some (Io.Variant.node_properties h)) = ok h
handling_of (some v) = undefined

unfoldable pub default_of : Option Io.ValueHandling → Result Io.ValueHandling
default_of none = throws no_value_handling
default_of (some h) = ok h

-- The first entry for the node, or else the default.
unfoldable pub find_handling :
    Io.NodeId → Option Io.ValueHandling → List Io.NodeData → Result Io.ValueHandling
unfolding handling_of default_of Io.equals
find_handling id h [] = default_of h
find_handling id h (d ∷ ds) =
    if Io.equals id d.node then handling_of d.payload else find_handling id h ds

unfoldable pub handling_in :
    Io.NodeId → Option Io.ValueHandling → Option (List Io.NodeData) → Result Io.ValueHandling
unfolding find_handling
handling_in id h none = find_handling id h []
handling_in id h (some ds) = find_handling id h ds

unfoldable pub get_value_handling : Properties → Io.NodeId → Result Io.ValueHandling
unfolding handling_in
get_value_handling ps id = handling_in id ps.default_handling ps.nodes

unfoldable pub is_handled : Io.ValueHandling → Bool
is_handled Io.ValueHandling.unhandled = false
is_handled h = true

-- What the code reads of a UaVariable.
pub record Variable : Type 0 where
  pub node_id : UaNodeId
  pub data_type : UaNodeId

-- The components that the bridge calls: the converter, the data provider, and the node manager, which
-- keeps the server's cache.
pub record Environment : Type 1 where
  pub Value : Type 0
  pub convert_node_id : UaNodeId → Result Io.NodeId
  pub convert_value : Value → UaNodeId → Result Io.Variant
  pub write : List (Io.NodeId × Io.Variant) → Result (Unit {0})
  pub set_variable : Variable → Value → Result (Unit {0})

-- What writeValues leaves: the data sent, if the data provider was called, the status of each
-- variable and that of the call, where `true` is good.
pub record Outcome : Type 0 where
  pub sent : List (Io.NodeId × Io.Variant)
  pub codes : List Bool
  pub status : Bool

module _ (env : Environment) where
  -- The body of the first loop: the data for a variable, or none if its values are not handled.
  unfoldable pub request :
      Properties → Variable × env.Value → Result (Option (Io.NodeId × Io.Variant))
  unfolding get_value_handling is_handled
  request ps (x, v) = do
    id ← env.convert_node_id x.node_id
    h ← get_value_handling ps id
    if is_handled h then fmap (λ w. some (id, w)) (env.convert_value v x.data_type) else ok none

  -- Its `catch`: the exception is kept and the loop goes on.
  unfoldable pub add_request :
      Result (Option (Io.NodeId × Io.Variant))
      → List (Io.NodeId × Io.Variant) × Bool
      → Result (List (Io.NodeId × Io.Variant) × Bool)
  add_request undefined acc = undefined
  add_request (throws e) (ds, failed) = ok (ds, true)
  add_request (ok none) acc = ok acc
  add_request (ok (some d)) (ds, failed) = ok (d ∷ ds, failed)

  unfoldable pub prepare :
      Properties → List (Variable × env.Value) → Result (List (Io.NodeId × Io.Variant) × Bool)
  unfolding request add_request
  prepare ps [] = ok ([], false)
  prepare ps (x ∷ xs) = prepare ps xs >>= add_request (request ps x)

  -- The second loop: every value goes to the server's cache.
  unfoldable pub add_code : Result (Unit {0}) → List Bool × Bool → Result (List Bool × Bool)
  add_code undefined acc = undefined
  add_code (throws e) (codes, failed) = ok (false ∷ codes, true)
  add_code (ok u) (codes, failed) = ok (true ∷ codes, failed)

  unfoldable pub store : List (Variable × env.Value) → Result (List Bool × Bool)
  unfolding add_code
  store [] = ok ([], false)
  store ((x, v) ∷ xs) = store xs >>= add_code (env.set_variable x v)

  unfoldable pub all_bad : List (Variable × env.Value) → List Bool
  all_bad [] = []
  all_bad (x ∷ xs) = false ∷ all_bad xs

  -- The rest after the first loop. Without data the data provider is not called.
  unfoldable pub after_write :
      List (Variable × env.Value)
      → List (Io.NodeId × Io.Variant)
      → Bool
      → Result (Unit {0})
      → Result Outcome
  unfolding store all_bad
  after_write xs ds failed undefined = undefined
  after_write xs ds failed (throws e) =
      ok (record { sent = ds; codes = all_bad xs; status = false })
  after_write xs ds failed (ok u) =
      fmap (λ r. record { sent = ds; codes = r.0; status = not (failed || r.1) }) (store xs)

  unfoldable pub write_prepared :
      List (Variable × env.Value) → List (Io.NodeId × Io.Variant) × Bool → Result Outcome
  unfolding after_write all_bad
  write_prepared xs ([], failed) =
      ok (record { sent = []; codes = all_bad xs; status = not failed })
  write_prepared xs (d ∷ ds, failed) = after_write xs (d ∷ ds) failed (env.write (d ∷ ds))

  unfoldable pub write_values : Properties → List (Variable × env.Value) → Result Outcome
  unfolding prepare write_prepared
  write_values ps xs = prepare ps xs >>= write_prepared xs

  -- beforeSetAttributeValue: the first two calls are outside of the `try`.
  unfoldable pub send_value : Io.NodeId → Variable → env.Value → Result Bool
  send_value id x v = elim (env.convert_value v x.data_type >>= λ w. env.write ((id, w) ∷ [])) [
    | ok u ↦ ok true
    | throws e ↦ ok false
    | undefined ↦ undefined
  ]

  unfoldable pub before_set_attribute_value : Properties → Variable → env.Value → Result Bool
  unfolding get_value_handling is_handled send_value
  before_set_attribute_value ps x v = do
    id ← env.convert_node_id x.node_id
    h ← get_value_handling ps id
    if is_handled h then send_value id x v else ok true
