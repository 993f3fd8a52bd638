-- ===== src/Session/Reads.antt =====
-- src/binaryServer/HaSession.cpp, read: what a node's attributes are, each answered on its own.
use opc_ua_server.Prelude.{
  ℕ, suc, ◌≡◌, refl, sym, ◌∙◌, Bool, true, false, Option, none, some, List, [], ◌∷◌, ◌++◌,
  if◌then◌else◌, ◌==◌, map, length, All, Bool-cases, Option-cases, inl, inr,
}
use opc_ua_server.Prelude.Result.{ok}
use opc_ua_server.Ua.Sdk.{UaNodeId}
use opc_ua_server.EventTypes.{find, assign}
use opc_ua_server.EventTypes.Walk.{find-assign, find-assign_ne}
use opc_ua_server.Session.{
  Attribute, node_class, value, data_type, UaSession, NodeAttributes, create, object_type_class,
  with_session,
}
use opc_ua_server.Session.Reading.{
  change_at, or_else, merge, store, mark, classify_node, classify, places, merge_all, read_values,
  read_open, read,
}
use opc_ua_server.Session.Describing.{
  IsEquality, IsDistinct, IsAnswered, describe, describe_values, describe_event_type, first,
  is_readable, readable, read_one, fresh, snoc, length-snoc, change_at-append,
  read_attributes-fresh,
}

module _ {Value : Type 0} (s : UaSession Value) (answer : UaNodeId × Attribute → Option Value) where
  classify-fresh :
      (ns : List UaNodeId)
      → classify s (map (fresh s answer (node_class ∷ [])) ns)
        ≡ ok (map (first s answer) ns, readable s answer ns)
  unfolding classify classify_node read_one store create first readable is_readable
  classify-fresh [] = refl
  classify-fresh (n ∷ ns) = elim (Option-cases (answer (n, node_class))) [
    | inl e ↦ rw (classify-fresh ns, first, is_readable, e) refl
    | inr (v, e) ↦ elim (Bool-cases (s.to_int32 v == object_type_class)) [
      | inl f ↦ rw (classify-fresh ns, first, is_readable, e, f, e) refl
      | inr f ↦ rw (classify-fresh ns, first, is_readable, e, f, e) refl
    ]
  ]

  -- After the second reading.
  merge-first :
      (n : UaNodeId)
      → is_readable s answer n ≡ true
      → merge (fresh s answer (value ∷ data_type ∷ []) n) (first s answer n) ≡ describe s answer n
  unfolding merge or_else read_one store create first is_readable describe describe_values
  merge-first n h = elim (Option-cases (answer (n, node_class))) [
    | inl e ↦ absurd (let f = rw (is_readable, e) at h in cc)
    | inr (v, e) ↦ elim (Bool-cases (s.to_int32 v == object_type_class)) [
      | inl f ↦ absurd (let g = rw (is_readable, e, f) at h in cc)
      | inr f ↦ elim (Option-cases (answer (n, value))) [
        | inl a ↦ elim (Option-cases (answer (n, data_type))) [
          | inl b ↦ rw (first, describe, e, f, a, b) refl
          | inr (w, b) ↦ rw (first, describe, e, f, a, b) refl
        ]
        | inr (u, a) ↦ elim (Option-cases (answer (n, data_type))) [
          | inl b ↦ rw (first, describe, e, f, a, b) refl
          | inr (w, b) ↦ rw (first, describe, e, f, a, b) refl
        ]
      ]
    ]
  ]

  first-describe :
      (n : UaNodeId) → is_readable s answer n ≡ false → first s answer n ≡ describe s answer n
  unfolding create first is_readable describe describe_event_type mark
  first-describe n h = elim (Option-cases (answer (n, node_class))) [
    | inl e ↦ rw (first, describe, e) refl
    | inr (v, e) ↦ elim (Bool-cases (s.to_int32 v == object_type_class)) [
      | inl f ↦ rw (first, describe, e, f) refl
      | inr f ↦ absurd (let g = rw (is_readable, e, f) at h in cc)
    ]
  ]

  first-node_id : (n : UaNodeId) → (first s answer n).node_id ≡ n
  unfolding create first mark
  first-node_id n = elim (Option-cases (answer (n, node_class))) [
    | inl e ↦ rw (first, e) refl
    | inr (v, e) ↦ elim (Bool-cases (s.to_int32 v == object_type_class)) [
      | inl f ↦ rw (first, e, f) refl
      | inr f ↦ rw (first, e, f) refl
    ]
  ]

  first-has_exception :
      (n : UaNodeId) → is_readable s answer n ≡ true → (first s answer n).has_exception ≡ false
  unfolding create first is_readable
  first-has_exception n h = elim (Option-cases (answer (n, node_class))) [
    | inl e ↦ absurd (let f = rw (is_readable, e) at h in cc)
    | inr (v, e) ↦ elim (Bool-cases (s.to_int32 v == object_type_class)) [
      | inl f ↦ absurd (let g = rw (is_readable, e, f) at h in cc)
      | inr f ↦ rw (first, e, f) refl
    ]
  ]

  store-node_id :
      (a : Attribute) (o : Option Value) (x : NodeAttributes Value)
      → (store s a o x).node_id ≡ x.node_id
  unfolding store
  store-node_id a none x = refl
  store-node_id node_class (some v) x = refl
  store-node_id value (some v) x = refl
  store-node_id data_type (some v) x = refl

  fresh-node_id : (n : UaNodeId) → (fresh s answer (value ∷ data_type ∷ []) n).node_id ≡ n
  unfolding read_one create
  fresh-node_id n =
      store-node_id data_type (answer (n, data_type)) (store s value (answer (n, value)) (create n))
      ∙ store-node_id value (answer (n, value)) (create n)

  module _ (same : UaNodeId → UaNodeId → Bool) (q : IsEquality same) where
    -- The places of the readable s answer nodes.
    abbrev Located : List (UaNodeId × ℕ) → ℕ → List UaNodeId → Type 0
    Located m k [] = Unit {0}
    Located m k (n ∷ ns) =
        (is_readable s answer n ≡ true → find same n m ≡ some k) × Located m (suc k) ns

    places-absent :
        (n : UaNodeId) (k : ℕ) (ns : List UaNodeId) (m : List (UaNodeId × ℕ))
        → All (λ e. same n e ≡ false) ns
        → find same n (places s same k (map (first s answer) ns) m) ≡ find same n m
    unfolding places
    places-absent n k [] m d = refl
    places-absent n k (e ∷ ns) m d = elim (Bool-cases (first s answer e).has_exception) [
      | inl h ↦ rw (h) (places-absent n (suc k) ns m d.1)
      | inr h ↦
          rw (h, first-node_id e)
            (places-absent n (suc k) ns (assign same e k m) d.1
              ∙ find-assign_ne same n e k m (λ j f. sym (q.substitutive e j n f)) d.0)
    ]

    places-Located :
        (k : ℕ) (ns : List UaNodeId) (m : List (UaNodeId × ℕ))
        → IsDistinct same ns
        → Located (places s same k (map (first s answer) ns) m) k ns
    unfolding places
    places-Located k [] m d = tt
    places-Located k (n ∷ ns) m d = (
      λ h.
          rw (first-has_exception n h, first-node_id n)
            (places-absent n (suc k) ns (assign same n k m) d.0
              ∙ find-assign same n k m (q.reflexive n)),
      places-Located (suc k) ns
          (if (first s answer n).has_exception
            then m
            else assign same (first s answer n).node_id k m)
          d.1,
    )

    merge_all-known :
        (m : List (UaNodeId × ℕ)) (v : NodeAttributes Value) (vs xs : List (NodeAttributes Value))
        (i : ℕ)
        → find same v.node_id m ≡ some i
        → merge_all s same m (v ∷ vs) xs ≡ merge_all s same m vs (change_at i (merge v) xs)
    unfolding merge_all
    merge_all-known m v vs xs i e = rw (merge_all, e) refl

    merge_all-describe :
        (m : List (UaNodeId × ℕ)) (ns : List UaNodeId) (pre : List (NodeAttributes Value))
        → Located m (length pre) ns
        → merge_all s same m
            (map (fresh s answer (value ∷ data_type ∷ [])) (readable s answer ns))
            (pre ++ map (first s answer) ns)
          ≡ ok (pre ++ map (describe s answer) ns)
    unfolding merge_all readable
    merge_all-describe m [] pre l = refl
    merge_all-describe m (n ∷ ns) pre l =
        let d = describe s answer n in
        let next = rw (← length-snoc pre d) at l.1 in
        let ih = merge_all-describe m ns (pre ++ d ∷ []) next in
        let rest =
          rw (snoc pre d (map (first s answer) ns), snoc pre d (map (describe s answer) ns)) at
            ih in
        elim (Bool-cases (is_readable s answer n)) [
          | inl h ↦
              let x = fresh s answer (value ∷ data_type ∷ []) n in
              let e : find same x.node_id m ≡ some (length pre) = rw (fresh-node_id n) (l.0 h) in
              rw (readable, h)
                (merge_all-known m x
                    (map (fresh s answer (value ∷ data_type ∷ [])) (readable s answer ns))
                    (pre ++ first s answer n ∷ map (first s answer) ns) (length pre) e
                  ∙ rw
                      (
                        change_at-append pre (merge x) (first s answer n) (map (first s answer) ns),
                        merge-first n h,
                      )
                      rest)
          | inr h ↦ rw (readable, h, first-describe n h) rest
        ]

-- In an open session whose server answers each request on its own, a read of nodes of which no two are
-- the same gives, in their order, what `describe` gives for each node alone.
pub read-describe :
    {Value : Type 0} (s : UaSession Value) (answer : UaNodeId × Attribute → Option Value)
    (same : UaNodeId → UaNodeId → Bool) (ns : List UaNodeId)
    → IsEquality same
    → IsAnswered s answer
    → IsDistinct same ns
    → read same (some s) ns ≡ ok (map (describe s answer) ns)
unfolding read with_session read_open read_values
read-describe s answer same [] q h d = refl
read-describe s answer same (n ∷ ns) q h d =
    rw
      (
        read_attributes-fresh s answer (node_class ∷ []) (n ∷ ns) h,
        classify-fresh s answer (n ∷ ns),
        read_attributes-fresh s answer (value ∷ data_type ∷ []) (readable s answer (n ∷ ns)) h,
      )
      (merge_all-describe s answer same q (places s same 0 (map (first s answer) (n ∷ ns)) [])
        (n ∷ ns) [] (places-Located s answer same q 0 (n ∷ ns) [] d))
