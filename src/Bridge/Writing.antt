-- ===== src/Bridge/Writing.antt =====
-- writeValues against a description without its loops and its `try` blocks.
use opc_ua_server.Prelude.{
  double_negation, ◌≡◌, refl, ap, if◌then◌else◌, Bool, true, false, not, ◌&&◌, ◌||◌, Option, none,
  some, List, [], ◌∷◌, map,
}
use opc_ua_server.Prelude.Result.{
  all_return, Result, fmap, ◌>>=◌, ok, throws, undefined, Defined, returns,
}
use opc_ua_server.Io
use opc_ua_server.Bridge.{
  Properties, Variable, Environment, Outcome, request, add_request, prepare, add_code, store,
  all_bad, after_write, write_prepared, write_values, get_value_handling, is_handled,
}
use opc_ua_server.Bridge.Policy.{policy, get_value_handling-policy}

-- The data of the calls that return some.
abbrev pub requests :
    List (Result (Option (Io.NodeId × Io.Variant))) → List (Io.NodeId × Io.Variant)
requests [] = []
requests (ok (some d) ∷ rs) = d ∷ requests rs
requests (r ∷ rs) = requests rs

module _ (env : Environment) (ps : Properties) where
  -- What a node with this handling needs to be sent, where `w` is the conversion of its value.
  abbrev pub with_handling :
      Io.NodeId
      → Result Io.ValueHandling
      → Result Io.Variant
      → Result (Option (Io.NodeId × Io.Variant))
  with_handling id (ok Io.ValueHandling.unhandled) w = ok none
  with_handling id (ok Io.ValueHandling.sync) w = fmap (λ v. some (id, v)) w
  with_handling id (ok Io.ValueHandling.async) w = fmap (λ v. some (id, v)) w
  with_handling id (throws e) w = throws e
  with_handling id undefined w = undefined

  abbrev pub with_id :
      Result Io.NodeId → Variable × env.Value → Result (Option (Io.NodeId × Io.Variant))
  with_id (ok id) (x, v) = with_handling id (policy ps id) (env.convert_value v x.data_type)
  with_id (throws e) x = throws e
  with_id undefined x = undefined

  -- The data for a variable and its value: none for an unhandled one, the converted value for others, or an
  -- exception.
  abbrev pub datum : Variable × env.Value → Result (Option (Io.NodeId × Io.Variant))
  datum x = with_id (env.convert_node_id x.0.node_id) x

  abbrev pub data_of : List (Variable × env.Value) → List (Io.NodeId × Io.Variant)
  data_of xs = requests (map datum xs)

  abbrev pub all_prepared : List (Variable × env.Value) → Bool
  all_prepared xs = all_return (map datum xs)

  handled_lem :
      (id : Io.NodeId) (r : Result Io.ValueHandling) (w : Result Io.Variant)
      → (r >>= λ h. if is_handled h then fmap (λ v. some (id, v)) w else ok none)
        ≡ with_handling id r w
  unfolding is_handled
  handled_lem id (ok Io.ValueHandling.unhandled) w = refl
  handled_lem id (ok Io.ValueHandling.sync) w = refl
  handled_lem id (ok Io.ValueHandling.async) w = refl
  handled_lem id (throws e) w = refl
  handled_lem id undefined w = refl

  identified_lem :
      (r : Result Io.NodeId) (x : Variable) (v : env.Value)
      → (r >>= λ id. get_value_handling ps id >>= λ h.
          if is_handled h
          then fmap (λ w. some (id, w)) (env.convert_value v x.data_type)
          else ok none)
        ≡ with_id r (x, v)
  identified_lem (ok id) x v =
      rw (get_value_handling-policy ps id)
        (handled_lem id (policy ps id) (env.convert_value v x.data_type))
  identified_lem (throws e) x v = refl
  identified_lem undefined x v = refl

  request-datum : (x : Variable × env.Value) → request env ps x ≡ datum x
  unfolding request
  request-datum (x, v) = identified_lem (env.convert_node_id x.node_id) x v

  abbrev pub stored : List (Variable × env.Value) → List Bool
  stored [] = []
  stored ((x, v) ∷ xs) = returns (env.set_variable x v) ∷ stored xs

  abbrev pub all_stored : List (Variable × env.Value) → Bool
  all_stored [] = true
  all_stored ((x, v) ∷ xs) = returns (env.set_variable x v) && all_stored xs

  -- The data provider is called for the data there is; the cache is written for every variable,
  -- once the data provider has accepted the data.
  abbrev pub outcome : List (Variable × env.Value) → List (Io.NodeId × Io.Variant) → Bool → Outcome
  outcome xs [] accepted = record {
    sent = [];
    codes = map (λ x. false) xs;
    status = all_prepared xs;
  }
  outcome xs (d ∷ ds) true = record {
    sent = d ∷ ds;
    codes = stored xs;
    status = all_prepared xs && all_stored xs;
  }
  outcome xs (d ∷ ds) false = record { sent = d ∷ ds; codes = map (λ x. false) xs; status = false }

  abbrev pub described : List (Variable × env.Value) → Outcome
  described xs = outcome xs (data_of xs) (returns (env.write (data_of xs)))

  add_request_lem :
      (r : Result (Option (Io.NodeId × Io.Variant)))
      (rs : List (Result (Option (Io.NodeId × Io.Variant))))
      → Defined r
      → add_request env r (requests rs, not (all_return rs))
        ≡ ok (requests (r ∷ rs), not (all_return (r ∷ rs)))
  unfolding add_request
  add_request_lem (ok none) rs h = refl
  add_request_lem (ok (some d)) rs h = refl
  add_request_lem (throws e) rs h = refl
  add_request_lem undefined rs h = elim h [ ]

  prepare_lem :
      (xs : List (Variable × env.Value))
      → ((x : Variable × env.Value) → Defined (datum x))
      → prepare env ps xs ≡ ok (data_of xs, not (all_prepared xs))
  unfolding prepare
  prepare_lem [] h = refl
  prepare_lem (x ∷ xs) h =
      rw (prepare_lem xs h, request-datum x) (add_request_lem (datum x) (map datum xs) (h x))

  add_code_lem :
      (r : Result (Unit {0})) (codes : List Bool) (b : Bool)
      → Defined r
      → add_code env r (codes, not b) ≡ ok (returns r ∷ codes, not (returns r && b))
  unfolding add_code
  add_code_lem (ok u) codes b h = refl
  add_code_lem (throws e) codes b h = refl
  add_code_lem undefined codes b h = elim h [ ]

  store_lem :
      (xs : List (Variable × env.Value))
      → ((x : Variable) (v : env.Value) → Defined (env.set_variable x v))
      → store env xs ≡ ok (stored xs, not (all_stored xs))
  unfolding store
  store_lem [] h = refl
  store_lem ((x, v) ∷ xs) h =
      rw (store_lem xs h) (add_code_lem (env.set_variable x v) (stored xs) (all_stored xs) (h x v))

  all_bad_lem : (xs : List (Variable × env.Value)) → all_bad env xs ≡ map (λ x. false) xs
  unfolding all_bad
  all_bad_lem [] = refl
  all_bad_lem (x ∷ xs) = ap (λ bs. false ∷ bs) (all_bad_lem xs)

  de_morgan : (a b : Bool) → not (not a || not b) ≡ a && b
  de_morgan true true = refl
  de_morgan true false = refl
  de_morgan false b = refl

  after_write_lem :
      (xs : List (Variable × env.Value)) (d : Io.NodeId × Io.Variant)
      (ds : List (Io.NodeId × Io.Variant)) (r : Result (Unit {0}))
      → Defined r
      → ((x : Variable) (v : env.Value) → Defined (env.set_variable x v))
      → after_write env xs (d ∷ ds) (not (all_prepared xs)) r ≡ ok (outcome xs (d ∷ ds) (returns r))
  unfolding after_write
  after_write_lem xs d ds (ok u) h k =
      rw (store_lem xs k, de_morgan (all_prepared xs) (all_stored xs)) refl
  after_write_lem xs d ds (throws e) h k = rw (all_bad_lem xs) refl
  after_write_lem xs d ds undefined h k = elim h [ ]

  write_prepared_lem :
      (xs : List (Variable × env.Value)) (ds : List (Io.NodeId × Io.Variant))
      → ((ds : List (Io.NodeId × Io.Variant)) → Defined (env.write ds))
      → ((x : Variable) (v : env.Value) → Defined (env.set_variable x v))
      → write_prepared env xs (ds, not (all_prepared xs))
        ≡ ok (outcome xs ds (returns (env.write ds)))
  unfolding write_prepared
  write_prepared_lem xs [] h k = rw (double_negation (all_prepared xs), all_bad_lem xs) refl
  write_prepared_lem xs (d ∷ ds) h k = after_write_lem xs d ds (env.write (d ∷ ds)) (h (d ∷ ds)) k

  -- If no call has undefined behaviour, writeValues returns, with the described outcome: exactly the
  -- data of the handled variables that could be converted was sent, in order; the codes are those of
  -- the cache, for every variable, if there was data and the data provider accepted it, and bad
  -- otherwise; the status is good if every variable could be prepared and, where there was data, it
  -- was accepted and every variable stored.
  pub write_values-described :
      (xs : List (Variable × env.Value))
      → ((x : Variable × env.Value) → Defined (datum x))
      → ((ds : List (Io.NodeId × Io.Variant)) → Defined (env.write ds))
      → ((x : Variable) (v : env.Value) → Defined (env.set_variable x v))
      → write_values env ps xs ≡ ok (described xs)
  unfolding write_values
  write_values-described xs h k l = rw (prepare_lem xs h) (write_prepared_lem xs (data_of xs) k l)
