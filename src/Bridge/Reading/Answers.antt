-- ===== src/Bridge/Reading/Answers.antt =====
-- The values that readValues returns when the data provider answers what was asked.
use opc_ua_server.Prelude.{
  double_negation, ℕ, suc, ◌≡◌, refl, ap, ◌∙◌, Bool, true, false, not, ◌||◌, Option, none, some,
  List, [], ◌∷◌, map, length, ◌==◌, inl, inr, arith, if◌then◌else◌,
}
use opc_ua_server.Prelude.Result.{
  all_return, bind_ext, fmap_bind, Result, ok, throws, undefined, ◌>>=◌, fmap, Defined,
}
use opc_ua_server.Common.Exception.{Exception}
use opc_ua_server.Io
use opc_ua_server.Ua.Sdk.{UaNodeId}
use opc_ua_server.Bridge.{Properties, Variable, get_value_handling, is_handled}
use opc_ua_server.Bridge.Policy.{policy, get_value_handling-policy}
use opc_ua_server.Bridge.Reading.Positions.{
  targets, shift, targets-suc, Entry, Distinct, SameEntries, index_of-SameEntries,
}
use opc_ua_server.Bridge.Reading.{
  Source, index_of, node_ids, Cell, wanted, add_wanted, prepare_reads, bad_cells, converted,
  value_of, answered, update, fill, after_read, read_prepared, read_values,
}

module _ (src : Source) (reply : Io.NodeId → Io.NodeData) where
  abbrev pub with_handling : Io.NodeId → Result Io.ValueHandling → Result (Option Io.NodeId)
  with_handling id (ok Io.ValueHandling.unhandled) = ok none
  with_handling id (ok Io.ValueHandling.sync) = ok (some id)
  with_handling id (ok Io.ValueHandling.async) = ok (some id)
  with_handling id (throws e) = throws e
  with_handling id undefined = undefined

  abbrev pub with_id : Properties → Result Io.NodeId → Result (Option Io.NodeId)
  with_id ps (ok id) = with_handling id (policy ps id)
  with_id ps (throws e) = throws e
  with_id ps undefined = undefined

  -- The node id that is asked for: none for an unhandled variable, or an exception.
  abbrev pub asked : Properties → Variable → Result (Option Io.NodeId)
  asked ps x = with_id ps (src.convert_node_id x.node_id)

  handled_lem :
      (id : Io.NodeId) (r : Result Io.ValueHandling)
      → (r >>= λ h. if is_handled h then ok (some id) else ok none) ≡ with_handling id r
  unfolding is_handled
  handled_lem id (ok Io.ValueHandling.unhandled) = refl
  handled_lem id (ok Io.ValueHandling.sync) = refl
  handled_lem id (ok Io.ValueHandling.async) = refl
  handled_lem id (throws e) = refl
  handled_lem id undefined = refl

  identified_lem :
      (ps : Properties) (r : Result Io.NodeId)
      → (r >>= λ id.
          get_value_handling ps id >>= λ h. if is_handled h then ok (some id) else ok none)
        ≡ with_id ps r
  identified_lem ps (ok id) = rw (get_value_handling-policy ps id) (handled_lem id (policy ps id))
  identified_lem ps (throws e) = refl
  identified_lem ps undefined = refl

  wanted-asked : (ps : Properties) (x : Variable) → wanted src ps x ≡ asked ps x
  unfolding wanted
  wanted-asked ps x = identified_lem ps (src.convert_node_id x.node_id)

  -- What a variable gets: the answer for its node id, if it was asked for.
  abbrev pub value_cell : Result src.Value → Cell src
  value_cell (ok v) = (some v, true)
  value_cell r = (none, false)

  abbrev pub answer_cell : Option Exception → Option Io.Variant → UaNodeId → Cell src
  answer_cell (some e) w t = (none, false)
  answer_cell none none t = (some src.null_value, true)
  answer_cell none (some w) t = value_cell (src.to_value w t)

  abbrev pub cell_for : Result (Option Io.NodeId) → UaNodeId → Cell src
  cell_for (ok (some id)) t = answer_cell (reply id).exception (reply id).payload t
  cell_for r t = (none, false)

  abbrev pub cells : Properties → List Variable → List (Cell src)
  cells ps [] = []
  cells ps (x ∷ xs) = cell_for (asked ps x) x.data_type ∷ cells ps xs

  abbrev replies : List (Io.NodeId × ℕ) → List Io.NodeData
  replies ws = map reply (node_ids ws)

  -- The loop with the positions known.
  fill_at : List Variable → List (Io.NodeId × ℕ) → List (Cell src) → Result (List (Cell src))
  fill_at xs [] cs = ok cs
  fill_at xs ((id, i) ∷ ws) cs = update src xs i (reply id) cs >>= λ bs. fill_at xs ws bs

  fill-fill_at :
      (xs : List Variable) (m ws : List (Io.NodeId × ℕ)) (cs : List (Cell src))
      → ((id : Io.NodeId) → (reply id).node ≡ id)
      → ((id : Io.NodeId) (i : ℕ) → Entry id i ws → index_of id m ≡ some i)
      → fill src xs m (replies ws) cs ≡ fill_at xs ws cs
  unfolding fill fill_at node_ids
  fill-fill_at xs m [] cs n h = refl
  fill-fill_at xs m ((id, i) ∷ ws) cs n h =
      rw (ap (λ k. index_of k m) (n id) ∙ h id i (inl (refl, refl)), fill)
        (bind_ext (update src xs i (reply id) cs) _ _
          (λ bs. fill-fill_at xs m ws bs n (λ k j e. h k j (inr e))))

  -- The first variable does not change while the others get their values.
  fill_at-shift :
      (x : Variable) (xs : List Variable) (ws : List (Io.NodeId × ℕ)) (c : Cell src)
      (cs : List (Cell src))
      → fill_at (x ∷ xs) (shift ws) (c ∷ cs) ≡ fmap (λ bs. c ∷ bs) (fill_at xs ws cs)
  unfolding fill_at shift update
  fill_at-shift x xs [] c cs = refl
  fill_at-shift x xs ((id, i) ∷ ws) c cs =
      fmap_bind (update src xs i (reply id) cs) (λ bs. c ∷ bs)
        (λ bs. fill_at (x ∷ xs) (shift ws) bs) (λ bs. fill_at xs ws bs)
        (λ bs. fill_at-shift x xs ws c bs)

  converted_lem :
      (r : Result src.Value) → Defined r → converted src (none, false) r ≡ ok (value_cell r)
  unfolding converted
  converted_lem (ok v) h = refl
  converted_lem (throws e) h = refl
  converted_lem undefined h = elim h [ ]

  answered_lem :
      (e : Option Exception) (w : Option Io.Variant) (t : UaNodeId)
      → ((w : Io.Variant) → Defined (src.to_value w t))
      → answered src (none, false) e w t ≡ ok (answer_cell e w t)
  unfolding answered value_of converted
  answered_lem (some e) w t h = refl
  answered_lem none none t h = refl
  answered_lem none (some w) t h = converted_lem (src.to_value w t) (h w)

  abbrev pub results : Properties → List Variable → List (Result (Option Io.NodeId))
  results ps xs = map (λ x. asked ps x) xs

  -- The first call's result, and the rest of the loop.
  fill_at-step :
      (r : Result (Option Io.NodeId)) (rs : List (Result (Option Io.NodeId))) (x : Variable)
      (xs : List Variable) (bs : List (Cell src))
      → ((w : Io.Variant) → Defined (src.to_value w x.data_type))
      → fill_at xs (targets 0 rs) (bad_cells src xs) ≡ ok bs
      → fill_at (x ∷ xs) (targets 0 (r ∷ rs)) (bad_cells src (x ∷ xs))
        ≡ ok (cell_for r x.data_type ∷ bs)
  unfolding fill_at update bad_cells
  fill_at-step (ok (some id)) rs x xs bs h e =
      rw (answered_lem (reply id).exception (reply id).payload x.data_type h, targets-suc 0 rs)
        (fill_at-shift x xs (targets 0 rs) _ (bad_cells src xs) ∙ ap (fmap _) e)
  fill_at-step (ok none) rs x xs bs h e =
      rw (targets-suc 0 rs) (fill_at-shift x xs (targets 0 rs) _ (bad_cells src xs) ∙ ap (fmap _) e)
  fill_at-step (throws f) rs x xs bs h e =
      rw (targets-suc 0 rs) (fill_at-shift x xs (targets 0 rs) _ (bad_cells src xs) ∙ ap (fmap _) e)
  fill_at-step undefined rs x xs bs h e =
      rw (targets-suc 0 rs) (fill_at-shift x xs (targets 0 rs) _ (bad_cells src xs) ∙ ap (fmap _) e)

  fill_at-cells :
      (ps : Properties) (xs : List Variable)
      → ((w : Io.Variant) (t : UaNodeId) → Defined (src.to_value w t))
      → fill_at xs (targets 0 (results ps xs)) (bad_cells src xs) ≡ ok (cells ps xs)
  unfolding fill_at bad_cells
  fill_at-cells ps [] h = refl
  fill_at-cells ps (x ∷ xs) h =
      fill_at-step (asked ps x) (results ps xs) x xs (cells ps xs) (λ w. h w x.data_type)
        (fill_at-cells ps xs h)

  add_wanted_lem :
      (i : ℕ) (r : Result (Option Io.NodeId)) (rs : List (Result (Option Io.NodeId)))
      → Defined r
      → add_wanted src i r (targets (suc i) rs, not (all_return rs))
        ≡ ok (targets i (r ∷ rs), not (all_return (r ∷ rs)))
  unfolding add_wanted
  add_wanted_lem i (ok none) rs h = refl
  add_wanted_lem i (ok (some id)) rs h = refl
  add_wanted_lem i (throws e) rs h = refl
  add_wanted_lem i undefined rs h = elim h [ ]

  prepare_reads_lem :
      (ps : Properties) (i : ℕ) (xs : List Variable)
      → ((x : Variable) → Defined (asked ps x))
      → prepare_reads src ps i xs ≡ ok (targets i (results ps xs), not (all_return (results ps xs)))
  unfolding prepare_reads
  prepare_reads_lem ps i [] h = refl
  prepare_reads_lem ps i (x ∷ xs) h =
      rw (prepare_reads_lem ps (suc i) xs h, wanted-asked ps x)
        (add_wanted_lem i (asked ps x) (results ps xs) (h x))

  length-replies : (ws : List (Io.NodeId × ℕ)) → length (replies ws) ≡ length ws
  unfolding node_ids
  length-replies [] = refl
  length-replies ((id, i) ∷ ws) = ap suc (length-replies ws)

  status_lem : (a : Bool) (n k : ℕ) → n ≡ k → not (not a || not (n == k)) ≡ a
  status_lem a n k h = ground arith

  read_prepared_lem :
      (xs : List Variable) (ws : List (Io.NodeId × ℕ)) (cs : List (Cell src)) (a : Bool)
      → ((id : Io.NodeId) → (reply id).node ≡ id)
      → src.read (node_ids ws) ≡ ok (some (replies ws))
      → Distinct ws
      → SameEntries ws (src.by_address ws)
      → fill_at xs ws (bad_cells src xs) ≡ ok cs
      → read_prepared src xs (ws, not a) ≡ ok (cs, a)
  unfolding read_prepared after_read fill_at
  read_prepared_lem xs [] cs a n r d s e = rw (double_negation a) (ap (fmap (λ b. (b, a))) e)
  read_prepared_lem xs (w ∷ ws) cs a n r d s e =
      rw
        (
          r,
          after_read,
          fill-fill_at xs (src.by_address (w ∷ ws)) (w ∷ ws) (bad_cells src xs) n
              (λ id i f. index_of-SameEntries (w ∷ ws) (src.by_address (w ∷ ws)) id i d s f),
          e,
          status_lem a (length (replies (w ∷ ws))) (length (w ∷ ws)) (length-replies (w ∷ ws)),
        )
        refl

  -- Where no call has undefined behaviour, the data provider answers each list of node ids with a
  -- reply for each, in their order, and no two handled variables have equal node ids, readValues returns,
  -- whatever the order of the pointers in its map. A handled variable gets the converted value of
  -- the reply for its node id, with a good status, and none with a bad one if the reply holds an
  -- exception or cannot be converted; every other variable has no value and a bad status. The status
  -- of the call is good if every variable could be prepared.
  pub read_values-cells :
      (ps : Properties) (xs : List Variable)
      → ((x : Variable) → Defined (asked ps x))
      → ((w : Io.Variant) (t : UaNodeId) → Defined (src.to_value w t))
      → ((id : Io.NodeId) → (reply id).node ≡ id)
      → ((ids : List Io.NodeId) → src.read ids ≡ ok (some (map reply ids)))
      → ((ws : List (Io.NodeId × ℕ)) → SameEntries ws (src.by_address ws))
      → Distinct (targets 0 (results ps xs))
      → read_values src ps xs ≡ ok (cells ps xs, all_return (results ps xs))
  unfolding read_values
  read_values-cells ps xs h v n r s d = rw (prepare_reads_lem ps 0 xs h) (
      read_prepared_lem xs (targets 0 (results ps xs)) (cells ps xs) (all_return (results ps xs)) n
        (r (node_ids (targets 0 (results ps xs)))) d (s (targets 0 (results ps xs)))
        (fill_at-cells ps xs v))
