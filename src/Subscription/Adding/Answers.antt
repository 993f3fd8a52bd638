-- ===== src/Subscription/Adding/Answers.antt =====
-- src/binaryServer/HaSubscription.cpp: the loop over the results of createMonitoredItems, and the
-- removal of the items that are not created.
use opc_ua_server.Prelude.{
  ℕ, suc, Bool, true, not, List, [], ◌∷◌, ◌++◌, Option, none, some, ◌≡◌, refl, ◌<◌, arith, inl, inr,
  ap, length, Option-cases,
}
use opc_ua_server.Prelude.Result.{ok, fmap, fmap_comm}
use opc_ua_server.Subscription.Handles.{insert, lookup, erase, erase_all}
use opc_ua_server.Subscription.Handles.Order.{lookup_head, erase_head, Below}
use opc_ua_server.Subscription.{MonitoredItem, accept, handles_of, new_item, set_id}
use opc_ua_server.Subscription.Adding.{
  Wanted, entries, requests, created, all_created, marked, refused, Above,
}

lookup_skip :
    (k j : ℕ) (w : MonitoredItem) (m : List (ℕ × MonitoredItem))
    → j < k
    → lookup k ((j, w) ∷ m) ≡ lookup k m
unfolding lookup
lookup_skip k j w m l = ground arith

insert_skip :
    (k j : ℕ) (v w : MonitoredItem) (m : List (ℕ × MonitoredItem))
    → j < k
    → insert k v ((j, w) ∷ m) ≡ (j, w) ∷ insert k v m
unfolding insert
insert_skip k j v w m l = ground arith

insert_head :
    (k : ℕ) (v w : MonitoredItem) (m : List (ℕ × MonitoredItem))
    → insert k v ((k, w) ∷ m) ≡ (k, v) ∷ m
unfolding insert
insert_head k v w m = ground arith

erase_skip :
    (k j : ℕ) (w : MonitoredItem) (m : List (ℕ × MonitoredItem))
    → j < k
    → erase k ((j, w) ∷ m) ≡ (j, w) ∷ erase k m
unfolding erase
erase_skip k j w m l = ground arith

-- An item before the handles stays as it is.
abbrev keep :
    ℕ × MonitoredItem
    → List (ℕ × MonitoredItem) × (List ℕ × Bool)
    → List (ℕ × MonitoredItem) × (List ℕ × Bool)
keep p out = (p ∷ out.0, out.1)

accept-skip :
    (j : ℕ) (w : MonitoredItem) (hs : List ℕ) (rs : List (Option ℕ)) (m : List (ℕ × MonitoredItem))
    → Above j hs
    → accept hs rs ((j, w) ∷ m) ≡ fmap (keep (j, w)) (accept hs rs m)
unfolding accept set_id
accept-skip j w hs [] m l = refl
accept-skip j w [] (r ∷ rs) m l = refl
accept-skip j w (h ∷ hs) (some i ∷ rs) m (l, ls) = elim (Option-cases (lookup h m)) [
  | inl e ↦ rw (accept, lookup_skip h j w m l, e) refl
  | inr (x, e) ↦
      rw (accept, lookup_skip h j w m l, e, insert_skip h j (record x { id = i }) w m l)
        (accept-skip j w hs rs (insert h (record x { id = i }) m) ls)
]
accept-skip j w (h ∷ hs) (none ∷ rs) m (l, ls) = elim (Option-cases (lookup h m)) [
  | inl e ↦ rw (accept, lookup_skip h j w m l, e) refl
  | inr (x, e) ↦
      rw (accept, lookup_skip h j w m l, e, accept-skip j w hs rs m ls)
        (fmap_comm (λ out. (out.0, (h ∷ out.1.0, true))) (keep (j, w)) (accept hs rs m)
          (λ out. refl))
]

erase_all-skip :
    (j : ℕ) (w : MonitoredItem) (hs : List ℕ) (m : List (ℕ × MonitoredItem))
    → Above j hs
    → erase_all hs ((j, w) ∷ m) ≡ (j, w) ∷ erase_all hs m
unfolding erase_all
erase_all-skip j w [] m l = refl
erase_all-skip j w (h ∷ hs) m (l, ls) =
    rw (erase_skip h j w m l) (erase_all-skip j w hs (erase h m) ls)

Above-handles_of : (j c : ℕ) (xs : Wanted) → j < c → Above j (handles_of (requests c xs))
unfolding handles_of
Above-handles_of j c [] l = tt
Above-handles_of j c (x ∷ xs) l = (l, Above-handles_of j (suc c) xs (omega arith))

Above-refused : (j c : ℕ) (rs : List (Option ℕ)) → j < c → Above j (refused c rs)
Above-refused j c [] l = tt
Above-refused j c (none ∷ rs) l = (l, Above-refused j (suc c) rs (omega arith))
Above-refused j c (some i ∷ rs) l = Above-refused j (suc c) rs (omega arith)

accept-entries :
    (c : ℕ) (xs : Wanted) (rs : List (Option ℕ))
    → length rs ≡ length xs
    → accept (handles_of (requests c xs)) rs (entries c xs)
      ≡ ok (marked c xs rs, (refused c rs, not (all_created rs)))
unfolding accept handles_of set_id
accept-entries c [] [] l = refl
accept-entries c [] (r ∷ rs) l = absurd (omega arith)
accept-entries c (x ∷ xs) [] l = absurd (omega arith)
accept-entries c ((a, fs) ∷ xs) (some i ∷ rs) l =
    rw
      (
        accept,
        lookup_head c (new_item a fs) (entries (suc c) xs),
        insert_head c (record { id = i; node_attr = a; event_fields = fs }) (new_item a fs)
            (entries (suc c) xs),
        accept-skip c (record { id = i; node_attr = a; event_fields = fs })
            (handles_of (requests (suc c) xs)) rs (entries (suc c) xs)
            (Above-handles_of c (suc c) xs (omega arith)),
        accept-entries (suc c) xs rs (omega arith),
      )
      refl
accept-entries c ((a, fs) ∷ xs) (none ∷ rs) l =
    rw
      (
        accept,
        lookup_head c (new_item a fs) (entries (suc c) xs),
        accept-skip c (new_item a fs) (handles_of (requests (suc c) xs)) rs (entries (suc c) xs)
            (Above-handles_of c (suc c) xs (omega arith)),
        accept-entries (suc c) xs rs (omega arith),
      )
      refl

-- The same after older items.
pub accept-append :
    (pre : List (ℕ × MonitoredItem)) (c : ℕ) (xs : Wanted) (rs : List (Option ℕ))
    → Below c pre
    → length rs ≡ length xs
    → accept (handles_of (requests c xs)) rs (pre ++ entries c xs)
      ≡ ok (pre ++ marked c xs rs, (refused c rs, not (all_created rs)))
accept-append [] c xs rs b l = accept-entries c xs rs l
accept-append ((j, w) ∷ pre) c xs rs b l =
    rw
      (
        accept-skip j w (handles_of (requests c xs)) rs (pre ++ entries c xs)
            (Above-handles_of j c xs b.0),
        accept-append pre c xs rs b.1 l,
      )
      refl

erase_all-marked :
    (c : ℕ) (xs : Wanted) (rs : List (Option ℕ))
    → length rs ≡ length xs
    → erase_all (refused c rs) (marked c xs rs) ≡ created c xs rs
unfolding erase_all
erase_all-marked c [] [] l = refl
erase_all-marked c [] (r ∷ rs) l = absurd (omega arith)
erase_all-marked c (x ∷ xs) [] l = absurd (omega arith)
erase_all-marked c (x ∷ xs) (some i ∷ rs) l =
    rw
      (erase_all-skip c (record { id = i; node_attr = x.0; event_fields = x.1 })
        (refused (suc c) rs) (marked (suc c) xs rs) (Above-refused c (suc c) rs (omega arith)))
      (ap (λ ms. (c, record { id = i; node_attr = x.0; event_fields = x.1 }) ∷ ms)
        (erase_all-marked (suc c) xs rs (omega arith)))
erase_all-marked c (x ∷ xs) (none ∷ rs) l =
    rw (erase_all, erase_head c (new_item x.0 x.1) (marked (suc c) xs rs))
      (erase_all-marked (suc c) xs rs (omega arith))

pub erase_all-append :
    (pre : List (ℕ × MonitoredItem)) (c : ℕ) (xs : Wanted) (rs : List (Option ℕ))
    → Below c pre
    → length rs ≡ length xs
    → erase_all (refused c rs) (pre ++ marked c xs rs) ≡ pre ++ created c xs rs
erase_all-append [] c xs rs b l = erase_all-marked c xs rs l
erase_all-append ((j, w) ∷ pre) c xs rs b l =
    rw (erase_all-skip j w (refused c rs) (pre ++ marked c xs rs) (Above-refused j c rs b.0))
      (ap (λ ms. (j, w) ∷ ms) (erase_all-append pre c xs rs b.1 l))
