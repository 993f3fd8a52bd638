-- ===== src/Bridge/Handling/Variables.antt =====
-- src/sasModelProvider/base/HaNodeManagerIODataProviderBridge.cpp, updateValueHandling of variables.
use opc_ua_server.Prelude.{
  ℕ, suc, ◌≡◌, refl, Bool, true, false, Option, none, some, List, [], ◌∷◌, All, map, if◌then◌else◌,
  Option-cases, inl, inr,
}
use opc_ua_server.Prelude.Result.{
  Result, ok, throws, undefined, ◌>>=◌, Defined, Result-cases, subscription_failed,
}
use opc_ua_server.Common.Exception.{Exception}
use opc_ua_server.Io
use opc_ua_server.Ua.Sdk.{UaNodeId}
use opc_ua_server.Bridge.{Properties, Variable, get_value_handling}
use opc_ua_server.Bridge.Policy.{policy, get_value_handling-policy}
use opc_ua_server.Bridge.Reading.{index_of, node_ids}
use opc_ua_server.Bridge.Reading.Positions.{
  targets, Entry, Distinct, SameEntries, index_of-SameEntries,
}
use opc_ua_server.Bridge.Handling.{
  Environment, Setting, cache_is_source, cache_is_updated_on_request, setting_of, results_of,
  handled, add_handled, gather_variables, variable_at, initial_value, set_initial, set_result,
  set_results, subscribe_variables, update_variables, has_exception,
}

-- The setting for a handling, if there is one.
abbrev pub setting_at : Result Io.ValueHandling → Option Setting
setting_at (ok Io.ValueHandling.unhandled) = some cache_is_source
setting_at (ok Io.ValueHandling.async) = some cache_is_source
setting_at (ok Io.ValueHandling.sync) = some cache_is_updated_on_request
setting_at r = none

abbrev pub subscribed_at : Io.NodeId → Result Io.ValueHandling → Result (Option Io.NodeId)
subscribed_at id (ok Io.ValueHandling.unhandled) = ok none
subscribed_at id (ok Io.ValueHandling.async) = ok (some id)
subscribed_at id (ok Io.ValueHandling.sync) = ok none
subscribed_at id (throws e) = throws e
subscribed_at id undefined = undefined

module _ (env : Environment) (ps : Properties) where
  abbrev pub setting_with : Result Io.NodeId → Option Setting
  setting_with (ok id) = setting_at (policy ps id)
  setting_with r = none

  -- The setting that a variable gets, if its id converts and it has a value handling.
  abbrev pub setting : Variable → Option Setting
  setting x = setting_with (env.convert_node_id x.node_id)

  abbrev pub subscribed_with : Result Io.NodeId → Result (Option Io.NodeId)
  subscribed_with (ok id) = subscribed_at id (policy ps id)
  subscribed_with (throws e) = throws e
  subscribed_with undefined = undefined

  -- The node id that is subscribed to: that of an asynchronous variable.
  abbrev pub subscribed : Variable → Result (Option Io.NodeId)
  subscribed x = subscribed_with (env.convert_node_id x.node_id)

  -- The value that a reply without an exception gives.
  abbrev pub given : Option Exception → Option Io.Variant → UaNodeId → Result env.Value
  given (some e) w t = throws subscription_failed
  given none none t = ok env.null_value
  given none (some w) t = env.to_value w t

  abbrev pub after_set :
      ℕ → env.Value → Result (Unit {0}) → List (ℕ × env.Value) → List (ℕ × env.Value)
  after_set i v (ok u) rest = (i, v) ∷ rest
  after_set i v r rest = rest

  abbrev pub after_given :
      ℕ → Variable → Result env.Value → List (ℕ × env.Value) → List (ℕ × env.Value)
  after_given i x (ok v) rest = after_set i v (env.set_variable x v) rest
  after_given i x r rest = rest

  module _ (reply : Io.NodeId → Io.NodeData) where
    abbrev pub initial :
        ℕ → Variable → Result (Option Io.NodeId) → List (ℕ × env.Value) → List (ℕ × env.Value)
    initial i x (ok (some id)) rest =
        after_given i x (given (reply id).exception (reply id).payload x.data_type) rest
    initial i x r rest = rest

    -- The initial values of the variables from a place on, by the replies for the asynchronous ones, that convert
    -- and are taken.
    abbrev pub initials : ℕ → List Variable → List (ℕ × env.Value)
    initials i [] = []
    initials i (x ∷ xs) = initial i x (subscribed x) (initials (suc i) xs)

  add_at :
      (i : ℕ) (id : Io.NodeId) (q : Result Io.ValueHandling) (ss : List (Option Setting))
      (rs : List (Result (Option Io.NodeId)))
      → Defined (subscribed_at id q)
      → add_handled env i (q >>= λ h. ok (id, setting_of h)) (ss, targets (suc i) rs)
        ≡ ok (setting_at q ∷ ss, targets i (subscribed_at id q ∷ rs))
  unfolding add_handled setting_of
  add_at i id (ok Io.ValueHandling.unhandled) ss rs d = refl
  add_at i id (ok Io.ValueHandling.async) ss rs d = refl
  add_at i id (ok Io.ValueHandling.sync) ss rs d = refl
  add_at i id (throws e) ss rs d = refl
  add_at i id undefined ss rs d = elim d [ ]

  add_with :
      (i : ℕ) (r : Result Io.NodeId) (ss : List (Option Setting))
      (rs : List (Result (Option Io.NodeId)))
      → Defined (subscribed_with r)
      → add_handled env i
          (r >>= λ id. get_value_handling ps id >>= λ h. ok (id, setting_of h))
          (ss, targets (suc i) rs)
        ≡ ok (setting_with r ∷ ss, targets i (subscribed_with r ∷ rs))
  unfolding add_handled
  add_with i (ok id) ss rs d =
      rw (get_value_handling-policy ps id) (add_at i id (policy ps id) ss rs d)
  add_with i (throws e) ss rs d = refl
  add_with i undefined ss rs d = elim d [ ]

  gather_variables-settings :
      (i : ℕ) (xs : List Variable)
      → All (λ x. Defined (subscribed x)) xs
      → gather_variables env ps i xs ≡ ok (map setting xs, targets i (map subscribed xs))
  unfolding gather_variables handled
  gather_variables-settings i [] d = refl
  gather_variables-settings i (x ∷ xs) d =
      rw (gather_variables-settings (suc i) xs d.1)
        (add_with i (env.convert_node_id x.node_id) (map setting xs) (map subscribed xs) d.0)

  -- The variables stand in the list from a place on.
  abbrev StandAt : List Variable → ℕ → List Variable → Type 0
  StandAt all i [] = Unit {0}
  StandAt all i (x ∷ xs) = (variable_at env all i ≡ some x) × StandAt all (suc i) xs

  StandAt-cons :
      (y : Variable) (all : List Variable) (i : ℕ) (xs : List Variable)
      → StandAt all i xs
      → StandAt (y ∷ all) (suc i) xs
  unfolding variable_at
  StandAt-cons y all i [] a = tt
  StandAt-cons y all i (x ∷ xs) (e, a) = (e, StandAt-cons y all (suc i) xs a)

  StandAt-first : (xs : List Variable) → StandAt xs 0 xs
  unfolding variable_at
  StandAt-first [] = tt
  StandAt-first (x ∷ xs) = (refl, StandAt-cons x xs 0 xs (StandAt-first xs))

  -- No conversion of a value and no setting of a variable is undefined.
  pub record IsSafe : Type 0 where
    pub values_defined : (w : Io.Variant) (t : UaNodeId) → Defined (env.to_value w t)
    pub set_defined : (x : Variable) (v : env.Value) → Defined (env.set_variable x v)

  set_lem :
      (i : ℕ) (x : Variable) (r : Result env.Value) (done : List (ℕ × env.Value))
      → Defined r
      → ((v : env.Value) → Defined (env.set_variable x v))
      → set_initial env i x r done ≡ ok (after_given i x r done)
  unfolding set_initial
  set_lem i x undefined done d k = elim d [ ]
  set_lem i x (throws e) done d k = refl
  set_lem i x (ok v) done d k = elim (Result-cases (env.set_variable x v)) [
    | inl (u, e) ↦ rw (set_initial, e) refl
    | inr (inl (w, e)) ↦ rw (set_initial, e) refl
    | inr (inr e) ↦ let c = k v in absurd (rw e at c)
  ]

  initial_lem :
      (i : ℕ) (x : Variable) (d : Io.NodeData) (done : List (ℕ × env.Value))
      → IsSafe
      → set_initial env i x (initial_value env d x) done
        ≡ ok (after_given i x (given none d.payload x.data_type) done)
  unfolding initial_value
  initial_lem i x d done s = elim (Option-cases d.payload) [
    | inl e ↦ rw (initial_value, e) (set_lem i x (ok env.null_value) done tt (s.set_defined x))
    | inr (w, e) ↦
        rw (initial_value, e)
          (set_lem i x (env.to_value w x.data_type) done (s.values_defined w x.data_type)
            (s.set_defined x))
  ]

  result_lem :
      (all : List Variable) (i : ℕ) (x : Variable) (d : Io.NodeData) (done : List (ℕ × env.Value))
      → IsSafe
      → variable_at env all i ≡ some x
      → set_result env all (some i) d done
        ≡ ok (after_given i x (given d.exception d.payload x.data_type) done)
  unfolding set_result has_exception
  result_lem all i x d done s a = elim (Option-cases d.exception) [
    | inl e ↦ rw (set_result, a, has_exception, e) (initial_lem i x d done s)
    | inr (w, e) ↦ rw (set_result, a, has_exception, e) refl
  ]

  module _ (reply : Io.NodeId → Io.NodeData) where
    abbrev pub replies : List Io.NodeId → List Io.NodeData
    replies ids = map reply ids

    set_results-initial :
        (all : List Variable) (m : List (Io.NodeId × ℕ)) (i : ℕ) (x : Variable)
        (r : Result (Option Io.NodeId)) (rs : List (Result (Option Io.NodeId)))
        (done : List (ℕ × env.Value))
        → IsSafe
        → ((id : Io.NodeId) → (reply id).node ≡ id)
        → variable_at env all i ≡ some x
        → ((id : Io.NodeId) (j : ℕ) → Entry id j (targets i (r ∷ rs)) → index_of id m ≡ some j)
        → set_results env all m (replies (node_ids (targets (suc i) rs))) ≡ ok done
        → set_results env all m (replies (node_ids (targets i (r ∷ rs))))
          ≡ ok (initial reply i x r done)
    unfolding set_results node_ids
    set_results-initial all m i x (ok (some id)) rs done s n a h e =
        rw (e, n id, h id i (inl (refl, refl))) (result_lem all i x (reply id) done s a)
    set_results-initial all m i x (ok none) rs done s n a h e = e
    set_results-initial all m i x (throws w) rs done s n a h e = e
    set_results-initial all m i x undefined rs done s n a h e = e

    -- The entries of the rest are entries.
    Entry-rest :
        (id : Io.NodeId) (j i : ℕ) (r : Result (Option Io.NodeId))
        (rs : List (Result (Option Io.NodeId)))
        → Entry id j (targets (suc i) rs)
        → Entry id j (targets i (r ∷ rs))
    Entry-rest id j i (ok (some k)) rs e = inr e
    Entry-rest id j i (ok none) rs e = e
    Entry-rest id j i (throws w) rs e = e
    Entry-rest id j i undefined rs e = e

    set_results-initials :
        (all : List Variable) (m : List (Io.NodeId × ℕ)) (i : ℕ) (xs : List Variable)
        → IsSafe
        → ((id : Io.NodeId) → (reply id).node ≡ id)
        → StandAt all i xs
        → ((id : Io.NodeId) (j : ℕ)
            → Entry id j (targets i (map subscribed xs))
            → index_of id m ≡ some j)
        → set_results env all m (replies (node_ids (targets i (map subscribed xs))))
          ≡ ok (initials reply i xs)
    unfolding set_results node_ids
    set_results-initials all m i [] s n a h = refl
    set_results-initials all m i (x ∷ xs) s n a h =
        set_results-initial all m i x (subscribed x) (map subscribed xs) (initials reply (suc i) xs)
          s n a.0 h
          (set_results-initials all m (suc i) xs s n a.1
            (λ id j e. h id j (Entry-rest id j i (subscribed x) (map subscribed xs) e)))

    -- What the data provider does with a subscription: it gives a reply for each node id, or it throws.
    abbrev pub answer : Bool → List Io.NodeId → Result (Option (List Io.NodeData))
    answer true ids = ok (some (map reply ids))
    answer false ids = throws subscription_failed

    subscribed_lem :
        (accepted : Bool) (xs : List Variable) (ws : List (Io.NodeId × ℕ))
        (done : List (ℕ × env.Value))
        → ((ids : List Io.NodeId) → env.subscribe ids ≡ answer accepted ids)
        → set_results env xs (env.by_address ws) (replies (node_ids ws)) ≡ ok done
        → subscribe_variables env xs ws ≡ ok (if accepted then done else [])
    unfolding subscribe_variables results_of set_results node_ids
    subscribed_lem true xs [] done h e = e
    subscribed_lem false xs [] done h e = refl
    subscribed_lem true xs (w ∷ ws) done h e = rw (subscribe_variables, h (node_ids (w ∷ ws))) e
    subscribed_lem false xs (w ∷ ws) done h e = rw (subscribe_variables, h (node_ids (w ∷ ws))) refl

    -- The data provider answers each subscription with a reply for each node id, in their order, or it always throws;
    -- no two asynchronous variables have equal node ids; and no call of a component is undefined. Then
    -- updateValueHandling of variables returns, whatever the order of the pointers in its map. Every variable has got
    -- its setting: the cache is the source for an unhandled or asynchronous one and is updated on request for a
    -- synchronous one; one whose id does not convert or that has no value handling keeps the setting it had. If
    -- the data provider does not throw, exactly the asynchronous variables whose reply holds no exception, and whose
    -- value converts and is taken, are set to it; else none is.
    pub update_variables-settings :
        (accepted : Bool) (xs : List Variable)
        → IsSafe
        → All (λ x. Defined (subscribed x)) xs
        → ((id : Io.NodeId) → (reply id).node ≡ id)
        → ((ids : List Io.NodeId) → env.subscribe ids ≡ answer accepted ids)
        → ((ws : List (Io.NodeId × ℕ)) → SameEntries ws (env.by_address ws))
        → Distinct (targets 0 (map subscribed xs))
        → update_variables env ps xs
          ≡ ok (map setting xs, (if accepted then initials reply 0 xs else []))
    unfolding update_variables
    update_variables-settings accepted xs s d n h b u =
        let ws = targets 0 (map subscribed xs) in
        let places : (id : Io.NodeId) (j : ℕ)
            → Entry id j ws
            → index_of id (env.by_address ws) ≡ some j =
          λ id j e. index_of-SameEntries ws (env.by_address ws) id j u (b ws) e in
        rw
          (
            gather_variables-settings 0 xs d,
            subscribed_lem accepted xs ws (initials reply 0 xs) h
                (set_results-initials xs (env.by_address ws) 0 xs s n (StandAt-first xs) places),
          )
          refl
