-- ===== src/Bridge/Reading.antt =====
-- src/sasModelProvider/base/HaNodeManagerIODataProviderBridge.cpp, readValues. Times are left out.
pub mod Positions
pub mod Answers
mod Tests
use opc_ua_server.Prelude.{
  ℕ, zero, suc, Bool, true, false, not, ◌||◌, Option, none, some, List, [], ◌∷◌, if◌then◌else◌, map,
  length, ◌==◌,
}
use opc_ua_server.Prelude.Result.{Result, ok, throws, undefined, ◌>>=◌, fmap}
use opc_ua_server.Common.Exception.{Exception}
use opc_ua_server.Io
use opc_ua_server.Ua.Sdk.{UaNodeId}
use opc_ua_server.Bridge.{Properties, Variable, get_value_handling, is_handled}

-- What the bridge calls: the converter and the data provider. The map `arrayIndices` has pointers as
-- its keys, so the order of its entries is that of their addresses, `by_address`.
pub record Source : Type 1 where
  pub Value : Type 0
  pub null_value : Value
  pub convert_node_id : UaNodeId → Result Io.NodeId
  pub to_value : Io.Variant → UaNodeId → Result Value
  pub read : List Io.NodeId → Result (Option (List Io.NodeData))
  pub by_address : List (Io.NodeId × ℕ) → List (Io.NodeId × ℕ)

-- The search for a node id's index: the first entry that is equal.
unfoldable pub index_of : Io.NodeId → List (Io.NodeId × ℕ) → Option ℕ
unfolding Io.equals
index_of id [] = none
index_of id ((k, i) ∷ m) = if Io.equals k id then some i else index_of id m

unfoldable pub node_ids : List (Io.NodeId × ℕ) → List Io.NodeId
node_ids [] = []
node_ids ((k, i) ∷ m) = k ∷ node_ids m

module _ (src : Source) where
  -- A returned value, if it was set, and whether its status is good.
  abbrev pub Cell : Type 0
  Cell = Option src.Value × Bool

  -- The body of the first loop, and its `catch`.
  unfoldable pub wanted : Properties → Variable → Result (Option Io.NodeId)
  unfolding get_value_handling is_handled
  wanted ps x = do
    id ← src.convert_node_id x.node_id
    h ← get_value_handling ps id
    if is_handled h then ok (some id) else ok none

  unfoldable pub add_wanted :
      ℕ
      → Result (Option Io.NodeId)
      → List (Io.NodeId × ℕ) × Bool
      → Result (List (Io.NodeId × ℕ) × Bool)
  add_wanted i undefined acc = undefined
  add_wanted i (throws e) (ws, failed) = ok (ws, true)
  add_wanted i (ok none) acc = ok acc
  add_wanted i (ok (some id)) (ws, failed) = ok ((id, i) ∷ ws, failed)

  unfoldable pub prepare_reads :
      Properties → ℕ → List Variable → Result (List (Io.NodeId × ℕ) × Bool)
  unfolding wanted add_wanted
  prepare_reads ps i [] = ok ([], false)
  prepare_reads ps i (x ∷ xs) = prepare_reads ps (suc i) xs >>= add_wanted i (wanted ps x)

  unfoldable pub bad_cells : List Variable → List Cell
  bad_cells [] = []
  bad_cells (x ∷ xs) = (none, false) ∷ bad_cells xs

  -- The body of the second loop, for the variable's data type. Without data the value is empty.
  unfoldable pub converted : Cell → Result src.Value → Result Cell
  converted c undefined = undefined
  converted c (throws e) = ok (c.0, false)
  converted c (ok v) = ok (some v, true)

  unfoldable pub value_of : Option Io.Variant → UaNodeId → Result src.Value
  value_of none t = ok src.null_value
  value_of (some w) t = src.to_value w t

  unfoldable pub answered : Cell → Option Exception → Option Io.Variant → UaNodeId → Result Cell
  unfolding converted value_of
  answered c (some e) w t = ok (c.0, false)
  answered c none w t = converted c (value_of w t)

  -- The arrays are indexed without a check.
  unfoldable pub update : List Variable → ℕ → Io.NodeData → List Cell → Result (List Cell)
  unfolding answered
  update (x ∷ xs) zero d (c ∷ cs) =
      fmap (λ b. b ∷ cs) (answered c d.exception d.payload x.data_type)
  update (x ∷ xs) (suc i) d (c ∷ cs) = fmap (λ bs. c ∷ bs) (update xs i d cs)
  update xs i d cs = undefined

  -- The second loop. For a node id that was not requested the index stays 2 ^ 32 - 1, since the test
  -- `arrayIndex < 0` of an unsigned number is never true.
  unfoldable pub fill :
      List Variable → List (Io.NodeId × ℕ) → List Io.NodeData → List Cell → Result (List Cell)
  unfolding index_of update
  fill xs m [] cs = ok cs
  fill xs m (d ∷ ds) cs = elim (index_of d.node m) [
    | none ↦ undefined
    | some i ↦ update xs i d cs >>= λ bs. fill xs m ds bs
  ]

  -- From the call of the data provider on, and its `catch`.
  unfoldable pub after_read :
      List Variable
      → List (Io.NodeId × ℕ)
      → Bool
      → Result (Option (List Io.NodeData))
      → Result (List Cell × Bool)
  unfolding fill bad_cells
  after_read xs ws failed undefined = undefined
  after_read xs ws failed (throws e) = ok (bad_cells xs, false)
  after_read xs ws failed (ok none) = ok (bad_cells xs, not (failed || not (length ws == 0)))
  after_read xs ws failed (ok (some ds)) =
      fmap (λ cs. (cs, not (failed || not (length ds == length ws))))
        (fill xs (src.by_address ws) ds (bad_cells xs))

  unfoldable pub read_prepared :
      List Variable → List (Io.NodeId × ℕ) × Bool → Result (List Cell × Bool)
  unfolding after_read bad_cells node_ids
  read_prepared xs ([], failed) = ok (bad_cells xs, not failed)
  read_prepared xs (w ∷ ws, failed) = after_read xs (w ∷ ws) failed (src.read (node_ids (w ∷ ws)))

  -- The values with their status, and the status of the call.
  unfoldable pub read_values : Properties → List Variable → Result (List Cell × Bool)
  unfolding prepare_reads read_prepared
  read_values ps xs = prepare_reads ps zero xs >>= read_prepared xs
