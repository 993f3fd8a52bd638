-- ===== src/Bridge/Calls/Conversions.antt =====
-- src/sasModelProvider/base/HaNodeManagerIODataProviderBridge.cpp, beginCall: the conversions of the arguments.
use opc_ua_server.Prelude.{
  Bool, true, Option, none, some, List, [], ◌∷◌, ◌≡◌, refl, ap, length, arith, inl, inr,
}
use opc_ua_server.Prelude.Result.{Result, ok, throws, undefined, fmap, Result-cases}
use opc_ua_server.Io
use opc_ua_server.Ua.Sdk.{UaNodeId}
use opc_ua_server.Bridge.Calls.{Environment, convert_inputs, add_input, convert_outputs, nulls}

module _ (env : Environment) where
  -- Each value converts to the argument, for the data type at its place.
  abbrev pub Converted : List env.Value → List UaNodeId → List Io.Variant → Type 0
  Converted [] ts [] = Unit {0}
  Converted (v ∷ vs) (t ∷ ts) (w ∷ ws) = (env.convert_value v t ≡ ok w) × Converted vs ts ws
  Converted vs ts ws = ⊥

  -- Each argument converts to the value, or both are null.
  abbrev pub Returned : List (Option Io.Variant) → List UaNodeId → List env.Value → Type 0
  Returned [] [] [] = Unit {0}
  Returned (none ∷ ws) (t ∷ ts) (v ∷ vs) = (v ≡ env.null_value) × Returned ws ts vs
  Returned (some w ∷ ws) (t ∷ ts) (v ∷ vs) = (env.to_value w t ≡ ok v) × Returned ws ts vs
  Returned ws ts vs = ⊥

  add_input_sound :
      (w : Io.Variant) (r : Result (List Bool × Option (List Io.Variant))) (codes : List Bool)
      (args : List Io.Variant)
      → fmap (add_input env w) r ≡ ok (codes, some args)
      → (cs : List Bool) × (ws : List Io.Variant) × (r ≡ ok (cs, some ws)) × (w ∷ ws ≡ args)
  unfolding add_input
  add_input_sound w (ok (cs, none)) codes args e = absurd (let q = e in cc)
  add_input_sound w (ok (cs, some ws)) codes args e = (cs, ws, refl, cc)
  add_input_sound w (throws x) codes args e = absurd (cc)
  add_input_sound w undefined codes args e = absurd (cc)

  pub convert_inputs_sound :
      (vs : List env.Value) (ts : List UaNodeId) (codes : List Bool) (args : List Io.Variant)
      → convert_inputs env vs ts ≡ ok (codes, some args)
      → Converted vs ts args
  unfolding convert_inputs
  convert_inputs_sound [] ts codes args e = let q : [] ≡ args = cc in rw (← q) tt
  convert_inputs_sound (v ∷ vs) [] codes args e = absurd (cc)
  convert_inputs_sound (v ∷ vs) (t ∷ ts) codes args e =
      elim (Result-cases (env.convert_value v t)) [
        | inr (inr h) ↦ absurd (let q = rw (convert_inputs, h) at e in cc)
        | inr (inl (x, h)) ↦ absurd (let q = rw (convert_inputs, h) at e in cc)
        | inl (w, h) ↦
            let (cs, ws, f, g) =
              add_input_sound w (convert_inputs env vs ts) codes args
                (rw (convert_inputs, h) at e) in
            rw (← g) (h, convert_inputs_sound vs ts cs ws f)
      ]

  keep_sound :
      (u : env.Value) (r : Result (List env.Value × Bool)) (vs : List env.Value)
      → fmap {B = List env.Value × Bool} (λ out. (u ∷ out.0, out.1)) r ≡ ok (vs, true)
      → (us : List env.Value) × (r ≡ ok (us, true)) × (u ∷ us ≡ vs)
  keep_sound u (ok (us, b)) vs e = (us, let q : b ≡ true = cc in ap (λ z. ok (us, z)) q, cc)
  keep_sound u (throws x) vs e = absurd (cc)
  keep_sound u undefined vs e = absurd (cc)

  pub convert_outputs_sound :
      (ws : List (Option Io.Variant)) (ts : List UaNodeId) (vs : List env.Value)
      → length ws ≡ length ts
      → convert_outputs env ws ts ≡ ok (vs, true)
      → Returned ws ts vs
  unfolding convert_outputs nulls
  convert_outputs_sound [] [] vs l e = let q : [] ≡ vs = cc in rw (← q) tt
  convert_outputs_sound [] (t ∷ ts) vs l e = absurd (omega arith)
  convert_outputs_sound (w ∷ ws) [] vs l e = absurd (omega arith)
  convert_outputs_sound (none ∷ ws) (t ∷ ts) vs l e =
      let (us, f, g) = keep_sound env.null_value (convert_outputs env ws ts) vs e in
      rw (← g) (refl, convert_outputs_sound ws ts us (omega arith) f)
  convert_outputs_sound (some w ∷ ws) (t ∷ ts) vs l e = elim (Result-cases (env.to_value w t)) [
    | inr (inr h) ↦ absurd (let q = rw (convert_outputs, h) at e in cc)
    | inr (inl (x, h)) ↦ absurd (let q = rw (convert_outputs, h) at e in cc)
    | inl (v, h) ↦
        let (us, f, g) =
          keep_sound v (convert_outputs env ws ts) vs (rw (convert_outputs, h) at e) in
        rw (← g) (h, convert_outputs_sound ws ts us (omega arith) f)
  ]

  unfoldable pub all_good : List env.Value → List Bool
  all_good [] = []
  all_good (v ∷ vs) = true ∷ all_good vs

  -- The other direction.
  pub convert_inputs_complete :
      (vs : List env.Value) (ts : List UaNodeId) (args : List Io.Variant)
      → Converted vs ts args
      → convert_inputs env vs ts ≡ ok (all_good vs, some args)
  unfolding convert_inputs add_input all_good
  convert_inputs_complete [] ts [] h = refl
  convert_inputs_complete [] ts (w ∷ ws) h = elim h [ ]
  convert_inputs_complete (v ∷ vs) [] args h = elim h [ ]
  convert_inputs_complete (v ∷ vs) (t ∷ ts) [] h = elim h [ ]
  convert_inputs_complete (v ∷ vs) (t ∷ ts) (w ∷ ws) h =
      rw (convert_inputs, h.0, convert_inputs_complete vs ts ws h.1) refl
