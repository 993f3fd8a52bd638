-- ===== src/Session/Describing.antt =====
-- src/binaryServer/HaSession.cpp, read: what a node's attributes are by the answers for it alone, and what the
-- requests for a list of attributes give.
use opc_ua_server.Prelude.{
  ℕ, zero, suc, ◌≡◌, refl, ap, ◌∙◌, Bool, true, false, not, ◌||◌, Option, none, some, List, [], ◌∷◌,
  ◌++◌, if◌then◌else◌, ◌==◌, map, length, All,
}
use opc_ua_server.Prelude.Result.{ok}
use opc_ua_server.Ua.Sdk.{UaNodeId}
use opc_ua_server.Session.{
  Attribute, node_class, value, data_type, UaSession, NodeAttributes, create, object_type_class,
  byte_type,
}
use opc_ua_server.Session.Reading.{
  change_at, requests_of, requests, attr_to_read, store, store_all, read_requests, read_attributes,
  mark,
}

-- An equivalence of node ids.
pub record IsEquality (same : UaNodeId → UaNodeId → Bool) : Type 0 where
  pub reflexive : (a : UaNodeId) → same a a ≡ true
  pub substitutive : (a b c : UaNodeId) → same a b ≡ true → same c a ≡ same c b

-- No two of the nodes are the same.
abbrev pub IsDistinct : (UaNodeId → UaNodeId → Bool) → List UaNodeId → Type 0
IsDistinct same [] = Unit {0}
IsDistinct same (n ∷ ns) = All (λ e. same n e ≡ false) ns × IsDistinct same ns

abbrev is_none {ℓ} : {A : Type ℓ} → Option A → Bool
is_none none = true
is_none (some x) = false

abbrev map_option {ℓ κ} : {A : Type ℓ} {B : Type κ} → (A → B) → Option A → Option B
map_option f none = none
map_option f (some x) = some (f x)

pub snoc {ℓ} :
    {A : Type ℓ} (pre : List A) (x : A) (xs : List A) → (pre ++ x ∷ []) ++ xs ≡ pre ++ x ∷ xs
snoc [] x xs = refl
snoc (p ∷ pre) x xs = ap (λ l. p ∷ l) (snoc pre x xs)

pub length-snoc {ℓ} :
    {A : Type ℓ} (pre : List A) (x : A) → length (pre ++ x ∷ []) ≡ suc (length pre)
length-snoc [] x = refl
length-snoc (p ∷ pre) x = ap suc (length-snoc pre x)

pub change_at-append {ℓ} :
    {A : Type ℓ} (pre : List A) (f : A → A) (x : A) (xs : List A)
    → change_at (length pre) f (pre ++ x ∷ xs) ≡ pre ++ f x ∷ xs
unfolding change_at
change_at-append [] f x xs = refl
change_at-append (p ∷ pre) f x xs = ap (λ l. p ∷ l) (change_at-append pre f x xs)

module _ {Value : Type 0} (s : UaSession Value) (answer : UaNodeId × Attribute → Option Value) where
  -- The value and the data type of a node that is no event type, whose class is known.
  unfoldable pub describe_values : UaNodeId → ℕ → NodeAttributes Value
  describe_values n c = record {
    node_id = n;
    value = answer (n, value);
    data_type = map_option s.to_node_id (answer (n, data_type));
    node_class = some c;
    has_exception = is_none (answer (n, value)) || is_none (answer (n, data_type));
  }

  unfoldable pub describe_event_type : UaNodeId → ℕ → NodeAttributes Value
  describe_event_type n c = record {
    node_id = n;
    value = some s.byte_one;
    data_type = some byte_type;
    node_class = some c;
    has_exception = false;
  }

  -- The attributes of a node by the answers for this node alone.
  unfoldable pub describe : UaNodeId → NodeAttributes Value
  unfolding create describe_values describe_event_type
  describe n = elim (answer (n, node_class)) [
    | none ↦ record (create n) { has_exception = true }
    | some v ↦
        let c = s.to_int32 v in
        if c == object_type_class then describe_event_type n c else describe_values n c
  ]

  -- The attributes after the first reading.
  unfoldable pub first : UaNodeId → NodeAttributes Value
  unfolding create mark
  first n = elim (answer (n, node_class)) [
    | none ↦ record (create n) { has_exception = true }
    | some v ↦
        let x = record (create n) { node_class = some (s.to_int32 v) } in
        if s.to_int32 v == object_type_class then mark s x else x
  ]

  unfoldable pub is_readable : UaNodeId → Bool
  is_readable n = elim (answer (n, node_class)) [
    | none ↦ false
    | some v ↦ not (s.to_int32 v == object_type_class)
  ]

  unfoldable pub readable : List UaNodeId → List UaNodeId
  unfolding is_readable
  readable [] = []
  readable (n ∷ ns) = let rest = readable ns in if is_readable n then n ∷ rest else rest

  unfoldable pub read_one : List Attribute → UaNodeId → NodeAttributes Value → NodeAttributes Value
  unfolding store
  read_one [] n x = x
  read_one (a ∷ ids) n x = read_one ids n (store s a (answer (n, a)) x)

  abbrev pub fresh : List Attribute → UaNodeId → NodeAttributes Value
  fresh ids n = read_one ids n (create n)

  store-requests_of :
      (ids : List Attribute) (n : UaNodeId) (pre : List (NodeAttributes Value))
      (x : NodeAttributes Value) (xs : List (NodeAttributes Value))
      (rest : List (ℕ × (UaNodeId × Attribute)))
      → store_all s
          (requests_of (length pre) n ids ++ rest)
          (map answer (attr_to_read (requests_of (length pre) n ids ++ rest)))
          (pre ++ x ∷ xs)
        ≡ store_all s rest (map answer (attr_to_read rest)) (pre ++ read_one ids n x ∷ xs)
  unfolding store_all requests_of attr_to_read read_one
  store-requests_of [] n pre x xs rest = refl
  store-requests_of (a ∷ ids) n pre x xs rest =
      rw (change_at-append pre (store s a (answer (n, a))) x xs)
        (store-requests_of ids n pre (store s a (answer (n, a)) x) xs rest)

  store-requests :
      (ids : List Attribute) (ns : List UaNodeId) (pre : List (NodeAttributes Value))
      → store_all s
          (requests (length pre) ns ids)
          (map answer (attr_to_read (requests (length pre) ns ids)))
          (pre ++ map create ns)
        ≡ ok (pre ++ map (fresh ids) ns)
  unfolding requests store_all attr_to_read
  store-requests ids [] pre = refl
  store-requests ids (n ∷ ns) pre =
      store-requests_of ids n pre (create n) (map create ns) (requests (suc (length pre)) ns ids)
      ∙ (let y = fresh ids n in
          rw (← length-snoc pre y, ← snoc pre y (map create ns), ← snoc pre y (map (fresh ids) ns))
            (store-requests ids ns (pre ++ y ∷ [])))

  -- Each request is answered on its own.
  abbrev pub IsAnswered : Type 0
  IsAnswered = (rs : List (UaNodeId × Attribute)) → s.read rs ≡ some (map answer rs)

  read_requests-all :
      (rs : List (ℕ × (UaNodeId × Attribute))) (xs : List (NodeAttributes Value))
      → IsAnswered
      → read_requests s rs xs ≡ store_all s rs (map answer (attr_to_read rs)) xs
  unfolding read_requests store_all
  read_requests-all [] xs h = refl
  read_requests-all (r ∷ rs) xs h = rw (read_requests, h (attr_to_read (r ∷ rs))) refl

  pub read_attributes-fresh :
      (ids : List Attribute) (ns : List UaNodeId)
      → IsAnswered
      → read_attributes s ns ids ≡ ok (map (fresh ids) ns)
  unfolding read_attributes
  read_attributes-fresh ids [] h = refl
  read_attributes-fresh ids (n ∷ ns) h =
      read_requests-all (requests zero (n ∷ ns) ids) (map create (n ∷ ns)) h
      ∙ store-requests ids (n ∷ ns) []
