-- ===== src/Session/Methods.antt =====
-- src/binaryServer/HaSession.cpp: write, call, getMethodArguments, getSuperTypes and getVariable. The search
-- for the super types is on fuel, one unit for a type on the way up.
use opc_ua_server.Prelude.{
  ℕ, zero, suc, Bool, true, false, ◌||◌, Option, none, some, List, [], ◌∷◌, ◌++◌, if◌then◌else◌,
  ◌==◌,
}
use opc_ua_server.Prelude.Result.{
  Result, ok, throws, undefined, fmap, bad_answer, bad_node, call_failed, too_deep,
}
use opc_ua_server.Ua.Sdk.{UaNodeId, ua_namespace}
use opc_ua_server.Browser.{last}
use opc_ua_server.Session.{UaSession, Reference, refused, failed, answered, with_session}

-- The loop over the results of write.
unfoldable pub all_written : List Bool → Result (Unit {0})
all_written [] = ok tt
all_written (true ∷ bs) = all_written bs
all_written (false ∷ bs) = throws bad_node

unfoldable pub targets : List Reference → List UaNodeId
targets [] = []
targets (r ∷ rs) = r.node_id ∷ targets rs

module _ {Value : Type 0} where
  -- At least one node; the nodes in the order of the map's pointers.
  unfoldable pub write_open : List (UaNodeId × Value) → UaSession Value → Result (Unit {0})
  unfolding all_written
  write_open nodes s = elim (s.write nodes) [ none ↦ throws bad_answer | some bs ↦ all_written bs ]

  unfoldable pub write : Option (UaSession Value) → List (UaNodeId × Value) → Result (Unit {0})
  unfolding with_session write_open
  write session [] = ok tt
  write session (x ∷ nodes) = with_session session (write_open (x ∷ nodes))

  unfoldable pub call_open :
      UaNodeId → UaNodeId → List Value → UaSession Value → Result (List Value)
  call_open m o vs s = elim (s.call m o vs) [
    | refused c ↦ throws (call_failed c)
    | failed c ↦ throws (call_failed c)
    | answered outs ↦ ok outs
  ]

  unfoldable pub call :
      Option (UaSession Value) → UaNodeId → UaNodeId → List Value → Result (List Value)
  unfolding with_session call_open
  call session m o vs = with_session session (call_open m o vs)

  unfoldable pub arguments_open :
      UaNodeId → UaSession Value → Result (List UaNodeId × List UaNodeId)
  arguments_open m s = elim (s.get_method_arguments m) [
    | none ↦ throws bad_answer
    | some io ↦ ok io
  ]

  unfoldable pub get_method_arguments :
      Option (UaSession Value) → UaNodeId → Result (List UaNodeId × List UaNodeId)
  unfolding with_session arguments_open
  get_method_arguments session m = with_session session (arguments_open m)

  -- The `while` loop. It goes on with the last of the references, and ends after the null node id.
  unfoldable pub climb : UaSession Value → ℕ → UaNodeId → Result (List UaNodeId)
  unfolding targets last
  climb s zero t = throws too_deep
  climb s (suc n) t = if s.is_null t || (ua_namespace t == 0) then ok [] else elim (s.browse t) [
    | none ↦ throws bad_answer
    | some rs ↦ elim (last (targets rs)) [
      | none ↦ ok []
      | some u ↦ fmap (λ ts. targets rs ++ ts) (climb s n u)
    ]
  ]

  unfoldable pub get_super_types : Option (UaSession Value) → ℕ → UaNodeId → Result (List UaNodeId)
  unfolding with_session climb
  get_super_types session n t = with_session session (λ s. climb s n t)

  -- `none` is the variant of `false`. The status is not looked at: without an answer there are no
  -- references. A closed session is a null pointer.
  unfoldable pub get_variable : Option (UaSession Value) → UaNodeId → Result (Option UaNodeId)
  get_variable none n = undefined
  get_variable (some s) n = elim (s.browse n) [
    | none ↦ ok none
    | some [] ↦ ok none
    | some (r ∷ []) ↦ ok (some r.node_id)
    | some (r ∷ q ∷ rs) ↦ ok none
  ]
