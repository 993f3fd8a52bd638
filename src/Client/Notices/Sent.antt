-- ===== src/Client/Notices/Sent.antt =====
-- src/binaryServer/Client.cpp, dataChanged and newEvents: which notification is sent, and the numbers of the
-- messages.
use opc_ua_server.Prelude.{
  ℕ, suc, ◌%◌, ◌^◌, if◌then◌else◌, Bool-cases, ◌≡◌, refl, Bool, true, false, not, ◌||◌, Option,
  none, some, List, [], ◌∷◌, All, inl, inr,
}
use opc_ua_server.Prelude.Result.{
  Result, ok, throws, undefined, ◌>>=◌, Defined, returns, fmap, Each, Each-bind, Each-fmap,
  Result-cases,
}
use opc_ua_server.Io
use opc_ua_server.Binary.Dto
use opc_ua_server.Binary.Converter.{io_to_bin}
use opc_ua_server.Ua.Sdk.{UaNodeId}
use opc_ua_server.Session.{NodeAttributes}
use opc_ua_server.Client.Requests.{
  Converter, dereference, id_to_bin, value_to_bin, attributes_to_bin,
}
use opc_ua_server.Client.Notices.{
  Elements, MessageHandler, Event, ReceivedEvent, Parts, element, add_element, elements_of, notify,
  failing, next_id, data_changed, prepare_event, event_of, send_event, new_events,
}

module _ {Value : Type 0} (conv : Converter Value) (to_node_id : Value → UaNodeId) where
  -- The value as one of the binary protocol.
  abbrev pub with_bin : Dto.ParamId → Result Dto.Variant → Option (Dto.ParamId × Dto.Variant)
  with_bin p (ok w) = some (p, w)
  with_bin p r = none

  abbrev pub with_io : Dto.ParamId → Result Io.Variant → Option (Dto.ParamId × Dto.Variant)
  with_io p (ok w) = with_bin p (io_to_bin w)
  with_io p r = none

  abbrev pub with_attributes :
      Result Dto.ParamId → Option Value → Option UaNodeId → Option (Dto.ParamId × Dto.Variant)
  with_attributes (ok p) (some v) (some t) = with_io p (conv.to_io v t)
  with_attributes r v t = none

  -- The element of a node without an exception whose id and value convert.
  abbrev pub conversion : NodeAttributes Value → Option (Dto.ParamId × Dto.Variant)
  conversion x =
      if x.has_exception then none else with_attributes (id_to_bin x.node_id) x.value x.data_type

  abbrev pub prepend : Option (Dto.ParamId × Dto.Variant) → Elements → Elements
  prepend (some e) es = e ∷ es
  prepend none es = es

  abbrev pub is_none : Option (Dto.ParamId × Dto.Variant) → Bool
  is_none none = true
  is_none (some e) = false

  -- The elements of the nodes that convert.
  abbrev pub converted : List (NodeAttributes Value) → Elements
  converted [] = []
  converted (x ∷ xs) = prepend (conversion x) (converted xs)

  -- Some node does not convert.
  abbrev pub any_refused : List (NodeAttributes Value) → Bool
  any_refused [] = false
  any_refused (x ∷ xs) = is_none (conversion x) || any_refused xs

  -- What a call that is defined gives.
  abbrev Means : Result (Dto.ParamId × Dto.Variant) → Option (Dto.ParamId × Dto.Variant) → Type 0
  Means (ok e) o = o ≡ some e
  Means (throws w) o = o ≡ none
  Means undefined o = Unit {0}

  bin-Means :
      (p : Dto.ParamId) (r : Result Dto.Variant) → Means (fmap (λ v. (p, v)) r) (with_bin p r)
  bin-Means p (ok w) = refl
  bin-Means p (throws e) = refl
  bin-Means p undefined = tt

  io-Means :
      (p : Dto.ParamId) (r : Result Io.Variant)
      → Means (fmap (λ v. (p, v)) (r >>= io_to_bin)) (with_io p r)
  io-Means p (ok w) = bin-Means p (io_to_bin w)
  io-Means p (throws e) = refl
  io-Means p undefined = tt

  attributes-Means :
      (r : Result Dto.ParamId) (v : Option Value) (t : Option UaNodeId)
      → Means
          (r >>= λ p.
            fmap (λ w. (p, w)) (do a ← dereference v; b ← dereference t; value_to_bin conv a b))
          (with_attributes r v t)
  unfolding dereference value_to_bin
  attributes-Means (throws e) v t = refl
  attributes-Means undefined v t = tt
  attributes-Means (ok p) none t = tt
  attributes-Means (ok p) (some v) none = tt
  attributes-Means (ok p) (some v) (some t) = io-Means p (conv.to_io v t)

  element-Means : (x : NodeAttributes Value) → Means (element conv to_node_id x) (conversion x)
  unfolding element attributes_to_bin
  element-Means x = elim (Bool-cases x.has_exception) [
    | inl h ↦ rw (element, h) refl
    | inr h ↦ rw (element, h) (attributes-Means (id_to_bin x.node_id) x.value x.data_type)
  ]

  add_element-Means :
      (r : Result (Dto.ParamId × Dto.Variant)) (o : Option (Dto.ParamId × Dto.Variant))
      (es : Elements) (failed : Bool)
      → Defined r
      → Means r o
      → add_element conv to_node_id r (es, failed) ≡ ok (prepend o es, is_none o || failed)
  unfolding add_element
  add_element-Means (ok e) o es failed d m = rw m refl
  add_element-Means (throws w) o es failed d m = rw m refl
  add_element-Means undefined o es failed d m = elim d [ ]

  abbrev pub sent : Elements → Option Elements
  sent [] = none
  sent (e ∷ es) = some (e ∷ es)

  -- The message handler throws for a notification that is sent.
  abbrev pub handler_throws : MessageHandler → ℕ → Elements → Bool
  handler_throws h i [] = false
  handler_throws h i (e ∷ es) = not (returns (h.notification_received i (e ∷ es)))

  elements_of-converted :
      (xs : List (NodeAttributes Value))
      → All (λ x. Defined (element conv to_node_id x)) xs
      → elements_of conv to_node_id xs ≡ ok (converted xs, any_refused xs)
  unfolding elements_of
  elements_of-converted [] d = refl
  elements_of-converted (x ∷ xs) d = rw (elements_of-converted xs d.1) (
      add_element-Means (element conv to_node_id x) (conversion x) (converted xs) (any_refused xs)
        d.0 (element-Means x))

  notify-sent :
      (h : MessageHandler) (i : ℕ) (es : Elements) (failed : Bool)
      → ((j : ℕ) (fs : Elements) → Defined (h.notification_received j fs))
      → notify conv to_node_id h i (es, failed) ≡ ok (sent es, failed || handler_throws h i es)
  unfolding notify failing
  notify-sent h i [] true d = refl
  notify-sent h i [] false d = refl
  notify-sent h i (e ∷ es) failed d = elim (Result-cases (h.notification_received i (e ∷ es))) [
    | inl (u, k) ↦ rw (k) refl
    | inr (inl (w, k)) ↦ rw (k) refl
    | inr (inr k) ↦ let c = d i (e ∷ es) in absurd (rw k at c)
  ]

  -- If no conversion and no call of the handler is undefined, dataChanged takes one number, modulo
  -- 2 ^ 32, sends the elements of exactly the nodes without an exception whose id and value convert, if
  -- there are any, in one notification, and throws exactly if some node has an exception or does not
  -- convert, or the handler throws.
  pub data_changed-sent :
      (h : MessageHandler) (i : ℕ) (xs : List (NodeAttributes Value))
      → All (λ x. Defined (element conv to_node_id x)) xs
      → ((j : ℕ) (fs : Elements) → Defined (h.notification_received j fs))
      → data_changed conv to_node_id h i xs
        ≡ ok (
          suc i % 2 ^ 32,
          (sent (converted xs), any_refused xs || handler_throws h i (converted xs)),
        )
  unfolding data_changed next_id
  data_changed-sent h i xs d k =
      rw (elements_of-converted xs d, notify-sent h i (converted xs) (any_refused xs) k) refl

  -- The numbers of the events are one after the other, up to the counter.
  abbrev pub Numbered : ℕ → List Event → ℕ → Type 0
  Numbered i [] j = i ≡ j
  Numbered i (e ∷ es) j = (e.id ≡ i) × Numbered (next_id i) es j

  -- What holds after any value.
  Each-any {ℓ κ ν} :
      {A : Type ℓ} {B : Type κ} (Q : B → Type ν) (r : Result A) (f : A → Result B)
      → ((x : A) → Each Q (f x))
      → Each Q (r >>= f)
  Each-any Q (ok x) f h = h x
  Each-any Q (throws e) f h = tt
  Each-any Q undefined f h = tt

  event_of-id :
      (i : ℕ) (t : Dto.ParamId) (ps : Parts)
      → Each (λ e. e.id ≡ i) (event_of conv to_node_id i t ps)
  unfolding event_of
  event_of-id i t ps =
      Each-any (λ e. e.id ≡ i) (dereference ps.param_id) _
        λ p.
          Each-any (λ e. e.id ≡ i) (dereference ps.time) _
            λ time.
              Each-any (λ e. e.id ≡ i) (dereference ps.severity) _
                λ severity. Each-any (λ e. e.id ≡ i) (dereference ps.message) _ λ message. refl

  send_event-id :
      (h : MessageHandler) (i : ℕ) (x : Dto.ParamId × Parts)
      → Each (λ s. s.0.id ≡ i) (send_event conv to_node_id h i x)
  unfolding send_event
  send_event-id h i (t, ps) =
      Each-bind (λ e. e.id ≡ i) (λ s. s.0.id ≡ i) (event_of conv to_node_id i t ps) _
        (event_of-id i t ps)
        λ e k. Each-any (λ s. s.0.id ≡ i) (failing conv to_node_id (h.event_received e)) _ λ b. k

  with_first :
      {i : ℕ} (e : Event)
      → e.id ≡ i
      → (r : Result (List Event × (ℕ × Bool))) → Each (λ out. Numbered (next_id i) out.0 out.1.0) r
      → Each (λ out. (e.id ≡ i) × Numbered (next_id i) out.0 out.1.0) r
  with_first e n (ok x) h = (n, h)
  with_first e n (throws w) h = tt
  with_first e n undefined h = tt

  -- The events that newEvents makes have numbers one after the other, modulo 2 ^ 32, from the counter up to
  -- the next one, whatever events cannot be prepared or sent.
  pub new_events-Numbered :
      (h : MessageHandler) (i : ℕ) (es : List (ReceivedEvent Value))
      → Each (λ out. Numbered i out.0 out.1.0) (new_events conv to_node_id h i es)
  unfolding new_events
  new_events-Numbered h i [] = refl
  new_events-Numbered h i (e ∷ es) =
      let skipped = new_events-Numbered h i es in
      let rest = new_events-Numbered h (next_id i) es in
      elim (Result-cases (prepare_event conv to_node_id e)) [
        | inl (x, k) ↦
            rw (new_events, k)
              (Each-bind (λ s. s.0.id ≡ i) (λ out. Numbered i out.0 out.1.0)
                (send_event conv to_node_id h i x) _ (send_event-id h i x)
                (λ s n.
                  Each-fmap (λ out. Numbered i out.0 out.1.0)
                    (λ out. (s.0 ∷ out.0, (out.1.0, s.1 || out.1.1)))
                    (new_events conv to_node_id h (next_id i) es)
                    (with_first s.0 n (new_events conv to_node_id h (next_id i) es) rest)))
        | inr (inl (w, k)) ↦
            rw (new_events, k)
              (Each-fmap (λ out. Numbered i out.0 out.1.0) (λ out. (out.0, (out.1.0, true)))
                (new_events conv to_node_id h i es) skipped)
        | inr (inr k) ↦ rw (new_events, k) tt
      ]
