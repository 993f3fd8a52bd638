-- ===== src/Client/Model/Browsing.antt =====
-- src/binaryServer/Client.cpp, browse: whether it ends.
use opc_ua_server.Prelude.{
  ℕ, zero, suc, ◌+◌, ◌≡◌, ◌≢◌, refl, true, false, none, some, List, [], Text, Bool-cases,
  Option-cases, inl, inr, arith,
}
use opc_ua_server.Ua.Sdk.{UaNodeId}
use opc_ua_server.Client.Model.{
  Reference, Answer, Values, add_cleared, add_kept, browse_rest, browse,
}

-- An answer after which no more are asked for.
abbrev pub IsLast : Answer → Type 0
IsLast a = (rs : List Reference) × (a ≡ some (rs, false))

module _ (full_string : UaNodeId → Text) (prefix : Text) (next : ℕ → Answer) where
  some_ends : {A : Type 0} (x : A) → some x ≢ none
  some_ends x e = cc

  browse_rest-ends :
      (n k : ℕ) (st : Values × List (Text × Values))
      → IsLast (next (k + n))
      → browse_rest full_string prefix next (suc n) k st ≢ none
  unfolding browse_rest
  browse_rest-ends zero k st (rs, l) =
      let f : k + 0 ≡ k = omega arith in
      let e = rw f at l in rw (browse_rest, e) (some_ends (add_kept full_string prefix rs st).1)
  browse_rest-ends (suc n) k st l =
      let f : k + suc n ≡ suc k + n = omega arith in
      let later = rw f at l in
      elim (Option-cases (next k)) [
        | inl e ↦ rw (browse_rest, e) (browse_rest-ends n (suc k) st later)
        | inr ((rs, more), e) ↦ elim (Bool-cases more) [
          | inl g ↦
              rw (browse_rest, e, g)
                (browse_rest-ends n (suc k) (add_kept full_string prefix rs st) later)
          | inr g ↦ rw (browse_rest, e, g) (some_ends (add_kept full_string prefix rs st).1)
        ]
      ]

  browse_rest-bad :
      (n k : ℕ) (st : Values × List (Text × Values))
      → ((i : ℕ) → next i ≡ none)
      → browse_rest full_string prefix next n k st ≡ none
  unfolding browse_rest
  browse_rest-bad zero k st h = refl
  browse_rest-bad (suc n) k st h = rw (browse_rest, h k) (browse_rest-bad n (suc k) st h)

  -- If the server has a last answer, by its number, the browsing ends after no more answers than that, also
  -- where earlier ones are bad.
  pub browse-ends :
      (first : Answer) (n : ℕ)
      → IsLast (next n)
      → browse full_string prefix first next (suc n) ≢ none
  unfolding browse
  browse-ends none n l = some_ends []
  browse-ends (some (rs, false)) n l = some_ends (add_cleared full_string prefix rs ([], [])).1
  browse-ends (some (rs, true)) n l =
      let f : n ≡ 0 + n = omega arith in
      browse_rest-ends n 0 (add_cleared full_string prefix rs ([], [])) (rw f at l)

  -- If there is more after the first answer and each answer after it is bad, as where the connection is lost,
  -- the browsing does not end.
  pub browse-bad :
      (rs : List Reference) (n : ℕ)
      → ((i : ℕ) → next i ≡ none)
      → browse full_string prefix (some (rs, true)) next n ≡ none
  unfolding browse
  browse-bad rs n h = browse_rest-bad n 0 (add_cleared full_string prefix rs ([], [])) h
