-- ===== src/Bridge/Changes/Order.antt =====
-- src/sasModelProvider/base/IODataProviderSubscriberCallback.cpp: which values of an event take effect.
use opc_ua_server.Prelude.{
  ℕ, ◌+◌, ◌*◌, ◌≤◌, ◌↔◌, arith, ◌≡◌, refl, ap, Option, none, some, List, [], ◌∷◌, ◌++◌, All, map,
  inl, inr,
}
use opc_ua_server.Prelude.Int.{ℤ, pos}
use opc_ua_server.Prelude.Result.{Result, ok, throws, undefined, fmap, Defined, Result-cases}
use opc_ua_server.Io
use opc_ua_server.Ua.Sdk.{UaNodeId}
use opc_ua_server.Bridge.{Variable}
use opc_ua_server.Bridge.Changes.Events.{Gives, event_given, event-Gives}
use opc_ua_server.Bridge.Changes.{
  Environment, Effect, FiredEvent, variable_set, fired, process_opc_ua_event, set_value, change,
  process, proceed, values_changed, ua_time, epoch,
}

-- The time of an event in milliseconds since 1970 is given to the SDK as its exact time in units of 100
-- ns since 1601 exactly when it is at most 910692730085477, for times after 1970; from there on the sum
-- overflows.
pub ua_time_iff : (n : ℕ) → (ua_time (pos n) ≡ ok (pos (n * 10000 + epoch))) ↔ (n ≤ 910692730085477)
unfolding ua_time
ua_time_iff n = ground arith

-- No data of an event.
abbrev pub IsValue : Option Io.Variant → Type 0
IsValue (some (Io.Variant.event_data source message severity fs)) = ⊥
IsValue w = Unit {0}

module _ (env : Environment) (time : ℤ) where
  -- What a value can do: it ends the work on the event, it has no effect, or it has one.
  pub data Outcome : Type 0 where
    ends : Outcome
    fails : Outcome
    acts : Effect env → Outcome

  -- The variable is set to the value, if both succeed.
  abbrev pub after_set : Variable → env.Value → Result (Unit {0}) → Outcome
  after_set x v (ok u) = acts (variable_set x v)
  after_set x v r = fails

  abbrev pub after_value : Variable → Result env.Value → Outcome
  after_value x (ok v) = after_set x v (env.set_variable x v)
  after_value x r = fails

  -- No value is the null value.
  abbrev pub for_variable : Option Variable → Option Io.Variant → Outcome
  for_variable none w = ends
  for_variable (some x) none = after_value x (ok env.null_value)
  for_variable (some x) (some w) = after_value x (env.to_value w x.data_type)

  abbrev pub after_event : Option (FiredEvent env) → Outcome
  after_event (some e) = acts (fired e)
  after_event none = fails

  -- The data of an event needs no variable.
  abbrev pub for_node : UaNodeId → Option Io.Variant → Outcome
  for_node id (some (Io.Variant.event_data source message severity fs)) =
      after_event (event_given env time id source message severity fs)
  for_node id w = for_variable (env.get_variable id) w

  abbrev pub for_id : Result UaNodeId → Option Io.Variant → Outcome
  for_id (ok id) w = for_node id w
  for_id r w = fails

  abbrev pub outcome : Io.NodeData → Outcome
  outcome d = for_id (env.convert_node_id d.node) d.payload

  -- The effects of the values up to the first one that ends the work.
  abbrev pub effects : List Outcome → List (Effect env)
  effects [] = []
  effects (ends ∷ os) = []
  effects (fails ∷ os) = effects os
  effects (acts f ∷ os) = f ∷ effects os

  -- What a call that is defined means for the loop.
  abbrev Means : Result (Option (Effect env)) → Outcome → Type 0
  Means (ok none) o = o ≡ ends
  Means (ok (some f)) o = o ≡ acts f
  Means (throws e) o = o ≡ fails
  Means undefined o = Unit {0}

  set-Means :
      (x : Variable) (v : env.Value)
      → Means
          (fmap (λ u. some (variable_set x v)) (env.set_variable x v))
          (after_set x v (env.set_variable x v))
  set-Means x v = elim (Result-cases (env.set_variable x v)) [
    | inl (u, e) ↦ rw e refl
    | inr (inl (w, e)) ↦ rw e refl
    | inr (inr e) ↦ rw e tt
  ]

  set_value-Means :
      (o : Option Variable) (w : Option Io.Variant) → Means (set_value env o w) (for_variable o w)
  unfolding set_value
  set_value-Means none w = refl
  set_value-Means (some x) none = set-Means x env.null_value
  set_value-Means (some x) (some w) = elim (Result-cases (env.to_value w x.data_type)) [
    | inl (v, e) ↦ rw e (set-Means x v)
    | inr (inl (q, e)) ↦ rw e refl
    | inr (inr e) ↦ rw e tt
  ]

  event-Means :
      (r : Result (FiredEvent env)) (o : Option (FiredEvent env))
      → Gives r o
      → Means (fmap (λ e. some (fired e)) r) (after_event o)
  event-Means (ok e) o g = rw g refl
  event-Means (throws e) o g = rw g refl
  event-Means undefined o g = tt

  change-Means :
      (id : UaNodeId) (w : Option Io.Variant) → Means (change env time id w) (for_node id w)
  unfolding change
  change-Means id none = set_value-Means (env.get_variable id) none
  change-Means id (some (Io.Variant.event_data source message severity fs)) =
      event-Means (process_opc_ua_event env time id source message severity fs)
        (event_given env time id source message severity fs)
        (event-Gives env time id source message severity fs)
  change-Means id (some (Io.Variant.scalar x)) = set_value-Means (env.get_variable id) _
  change-Means id (some (Io.Variant.null_array t)) = set_value-Means (env.get_variable id) _
  change-Means id (some (Io.Variant.array t es)) = set_value-Means (env.get_variable id) _
  change-Means id (some (Io.Variant.structure n fs)) = set_value-Means (env.get_variable id) _
  change-Means id (some (Io.Variant.node_id n)) = set_value-Means (env.get_variable id) _
  change-Means id (some (Io.Variant.node_properties h)) = set_value-Means (env.get_variable id) _

  process-Means : (d : Io.NodeData) → Means (process env time d) (outcome d)
  unfolding process
  process-Means d = elim (Result-cases (env.convert_node_id d.node)) [
    | inl (id, e) ↦ rw e (change-Means id d.payload)
    | inr (inl (w, e)) ↦ rw e refl
    | inr (inr e) ↦ rw e tt
  ]

  -- The first step of the loop, for what the call gives.
  first_step :
      (r : Result (Option (Effect env))) (o : Outcome) (os : List Outcome)
      → Defined r
      → Means r o
      → proceed env r (ok (effects os)) ≡ ok (effects (o ∷ os))
  unfolding proceed
  first_step (ok none) o os d m = rw m refl
  first_step (ok (some f)) o os d m = rw m refl
  first_step (throws e) o os d m = rw m refl
  first_step undefined o os d m = elim d [ ]

  -- When nothing is undefined, valuesChanged returns; each value before the first one of an unknown
  -- variable has had its effect, in the order of the event, if it could be converted and set or fired,
  -- and a value that could not keeps no other from its effect. The data of an event needs no variable.
  pub values_changed-effects :
      (ds : List Io.NodeData)
      → All (λ d. Defined (process env time d)) ds
      → values_changed env time ds ≡ ok (effects (map outcome ds))
  unfolding values_changed
  values_changed-effects [] h = refl
  values_changed-effects (d ∷ ds) h =
      rw (values_changed-effects ds h.1)
        (first_step (process env time d) (outcome d) (map outcome ds) h.0 (process-Means d))

  unknown_ends :
      (id : UaNodeId) (w : Option Io.Variant)
      → env.get_variable id ≡ none
      → IsValue w
      → change env time id w ≡ ok none
  unfolding change set_value
  unknown_ends id none e v = rw e refl
  unknown_ends id (some (Io.Variant.scalar x)) e v = rw e refl
  unknown_ends id (some (Io.Variant.null_array t)) e v = rw e refl
  unknown_ends id (some (Io.Variant.array t es)) e v = rw e refl
  unknown_ends id (some (Io.Variant.structure n fs)) e v = rw e refl
  unknown_ends id (some (Io.Variant.node_id n)) e v = rw e refl
  unknown_ends id (some (Io.Variant.node_properties h)) e v = rw e refl
  unknown_ends id (some (Io.Variant.event_data source message severity fs)) e v = elim v [ ]

  -- A value, not the data of an event, of a node that is no known variable ends the work on the event: whatever comes after it is
  -- as if it had not been sent, and the callback returns as it would have done without it.
  pub values_changed_dropped :
      (ds : List Io.NodeData) (d : Io.NodeData) (id : UaNodeId) (rest : List Io.NodeData)
      → env.convert_node_id d.node ≡ ok id
      → env.get_variable id ≡ none
      → IsValue d.payload
      → values_changed env time (ds ++ d ∷ rest) ≡ values_changed env time ds
  unfolding values_changed proceed process
  values_changed_dropped [] d id rest c e v = rw (c, unknown_ends id d.payload e v) refl
  values_changed_dropped (x ∷ ds) d id rest c e v =
      ap (proceed env (process env time x)) (values_changed_dropped ds d id rest c e v)
