-- ===== src/Bridge/Handling/ObjectTypes.antt =====
-- src/sasModelProvider/base/HaNodeManagerIODataProviderBridge.cpp, updateValueHandling of object types.
use opc_ua_server.Prelude.{
  ℕ, Bool, true, false, not, ◌||◌, ◌&&◌, Option, none, some, List, [], ◌∷◌, ◌≡◌, refl, ap, All,
  if◌then◌else◌, length, ◌==◌, inl, inr, map, Option-cases,
}
use opc_ua_server.Prelude.Result.{
  Result, ok, throws, undefined, ◌>>=◌, Defined, all_return, Result-cases, synchronous_type,
  subscription_failed,
}
use opc_ua_server.Common.Exception.{Exception}
use opc_ua_server.Io
use opc_ua_server.Ua.Sdk.{UaNodeId}
use opc_ua_server.Bridge.{Properties, get_value_handling}
use opc_ua_server.Bridge.Policy.{policy, get_value_handling-policy}
use opc_ua_server.Bridge.Handling.{
  Environment, has_exception, any_exception, results_of, to_subscribe, asked, add_asked, gather,
  check_results, subscribe_all, throw_if, update_object_types,
}

-- The node ids of the calls that return one.
abbrev pub picked : List (Result (Option Io.NodeId)) → List Io.NodeId
picked [] = []
picked (ok (some id) ∷ rs) = id ∷ picked rs
picked (r ∷ rs) = picked rs

de_morgan : (b p q : Bool) → (not b || (not p || not q)) ≡ not (b && (p && q))
de_morgan true true q = refl
de_morgan true false q = refl
de_morgan false p q = refl

never : (b : Bool) → true ≡ not (b && false)
never true = refl
never false = refl

module _ (env : Environment) (ps : Properties) where
  -- A synchronous type is an exception, and only an asynchronous one is subscribed to.
  abbrev pub with_handling : Io.NodeId → Result Io.ValueHandling → Result (Option Io.NodeId)
  with_handling id (ok Io.ValueHandling.unhandled) = ok none
  with_handling id (ok Io.ValueHandling.async) = ok (some id)
  with_handling id (ok Io.ValueHandling.sync) = throws synchronous_type
  with_handling id (throws e) = throws e
  with_handling id undefined = undefined

  abbrev pub with_id : Result Io.NodeId → Result (Option Io.NodeId)
  with_id (ok id) = with_handling id (policy ps id)
  with_id (throws e) = throws e
  with_id undefined = undefined

  abbrev pub wish : UaNodeId → Result (Option Io.NodeId)
  wish t = with_id (env.convert_node_id t)

  abbrev pub requests : List UaNodeId → List (Result (Option Io.NodeId))
  requests ts = map wish ts

  to_subscribe_lem :
      (id : Io.NodeId) (r : Result Io.ValueHandling) → (r >>= to_subscribe id) ≡ with_handling id r
  unfolding to_subscribe
  to_subscribe_lem id (ok Io.ValueHandling.unhandled) = refl
  to_subscribe_lem id (ok Io.ValueHandling.async) = refl
  to_subscribe_lem id (ok Io.ValueHandling.sync) = refl
  to_subscribe_lem id (throws e) = refl
  to_subscribe_lem id undefined = refl

  identified_lem :
      (r : Result Io.NodeId)
      → (r >>= λ id. get_value_handling ps id >>= λ h. to_subscribe id h) ≡ with_id r
  identified_lem (ok id) = rw (get_value_handling-policy ps id) (to_subscribe_lem id (policy ps id))
  identified_lem (throws e) = refl
  identified_lem undefined = refl

  asked-wish : (t : UaNodeId) → asked env ps t ≡ wish t
  unfolding asked
  asked-wish t = identified_lem (env.convert_node_id t)

  abbrev pub answers : Option (List Io.NodeData) → List Io.NodeData
  answers none = []
  answers (some ds) = ds

  abbrev pub is_good : Option Exception → Bool
  is_good none = true
  is_good (some e) = false

  abbrev pub all_good : List Io.NodeData → Bool
  all_good [] = true
  all_good (d ∷ ds) = is_good d.exception && all_good ds

  results_of_lem : (r : Option (List Io.NodeData)) → results_of r ≡ answers r
  unfolding results_of
  results_of_lem none = refl
  results_of_lem (some ds) = refl

  any_exception_lem : (ds : List Io.NodeData) → any_exception ds ≡ not (all_good ds)
  unfolding any_exception has_exception
  any_exception_lem [] = refl
  any_exception_lem (d ∷ ds) = elim (Option-cases d.exception) [
    | inl e ↦ rw (e, any_exception_lem ds) refl
    | inr (x, e) ↦ rw e refl
  ]

  -- The data provider returns a result without an exception for each node id that it is asked for.
  abbrev pub accepts : Result (Option (List Io.NodeData)) → ℕ → Bool
  accepts (ok r) n = length (answers r) == n && all_good (answers r)
  accepts r n = false

  abbrev pub is_accepted : List Io.NodeId → Bool
  is_accepted [] = true
  is_accepted (id ∷ ids) = accepts (env.subscribe (id ∷ ids)) (length (id ∷ ids))

  gather-picked :
      (ts : List UaNodeId)
      → All (λ t. Defined (wish t)) ts
      → gather env ps ts ≡ ok (picked (requests ts), not (all_return (requests ts)))
  unfolding gather add_asked
  gather-picked [] d = refl
  gather-picked (t ∷ ts) d = elim (Result-cases (wish t)) [
    | inl (some id, h) ↦ rw (gather-picked ts d.1, asked-wish t, h) refl
    | inl (none, h) ↦ rw (gather-picked ts d.1, asked-wish t, h) refl
    | inr (inl (e, h)) ↦ rw (gather-picked ts d.1, asked-wish t, h) refl
    | inr (inr h) ↦ let k = d.0 in absurd (rw h at k)
  ]

  subscribe_all-is_accepted :
      (ids : List Io.NodeId) (returned : Bool)
      → Defined (env.subscribe ids)
      → subscribe_all env (ids, not returned) ≡ ok (not (returned && is_accepted ids))
  unfolding subscribe_all check_results
  subscribe_all-is_accepted [] true d = refl
  subscribe_all-is_accepted [] false d = refl
  subscribe_all-is_accepted (id ∷ ids) b d = elim (Result-cases (env.subscribe (id ∷ ids))) [
    | inl (r, h) ↦
        rw (h, subscribe_all, check_results, results_of_lem r, any_exception_lem (answers r))
          (ap ok (de_morgan b (length (answers r) == length (id ∷ ids)) (all_good (answers r))))
    | inr (inl (e, h)) ↦ rw (h, subscribe_all) (ap ok (never b))
    | inr (inr h) ↦ absurd (rw h at d)
  ]

  throw_if_lem :
      (b : Bool) → throw_if env (not b) ≡ (if b then ok tt else throws subscription_failed)
  unfolding throw_if
  throw_if_lem true = refl
  throw_if_lem false = refl

  -- Where no call of a component is undefined, updateValueHandling of object types returns exactly when
  -- every type has an id that converts and a value handling, none of them is synchronous, and, if any
  -- is asynchronous, the data provider answers the subscription to the asynchronous ones, in their
  -- order, with a result for each and none with an exception; else it throws.
  pub update_object_types-is_accepted :
      (ts : List UaNodeId)
      → All (λ t. Defined (wish t)) ts
      → Defined (env.subscribe (picked (requests ts)))
      → update_object_types env ps ts ≡ (
          if all_return (requests ts) && is_accepted (picked (requests ts))
          then ok tt
          else throws subscription_failed)
  unfolding update_object_types
  update_object_types-is_accepted ts d e =
      let fits = all_return (requests ts) in
      rw (gather-picked ts d, subscribe_all-is_accepted (picked (requests ts)) fits e)
        (throw_if_lem (fits && is_accepted (picked (requests ts))))
