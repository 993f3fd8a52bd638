-- ===== src/Common/LoggerFactory.antt =====
-- src/common/logging/LoggerFactory.cpp: the registry of logger factories, a static variable for
-- the active one and a vector of those that it replaced. A factory is its address; `none` as the
-- result of an operation is undefined behaviour (`back` or `size` on a null or empty vector).
pub mod Stack
mod Tests
use opc_ua_server.Prelude.{
  ℕ, ◌≡◌, Bool, true, false, Option, none, some, List, [], ◌∷◌, ◌==◌, if◌then◌else◌, arith,
}

-- The static members. The vector's back stands first.
pub record Registry : Type 0 where
  pub active : Option ℕ
  pub previous : Option (List ℕ)

pub initial : Registry
initial = record { active = none; previous = none }

-- The constructor: the active factory is pushed onto the vector, which is created when missing.
push_previous : Option ℕ → Option (List ℕ) → Option (List ℕ)
push_previous none previous = previous
push_previous (some f) none = some (f ∷ [])
push_previous (some f) (some fs) = some (f ∷ fs)

pub construct : ℕ → Registry → Registry
unfolding push_previous
construct f r = record { active = some f; previous = push_previous r.active r.previous }

-- The destructor of the active factory: the vector's back becomes active, and leaves the vector;
-- a vector of one element is deleted.
reactivate : Option (List ℕ) → Option Registry
reactivate none = some (record { active = none; previous = none })
reactivate (some []) = none
reactivate (some (f ∷ [])) = some (record { active = some f; previous = none })
reactivate (some (f ∷ g ∷ fs)) = some (record { active = some f; previous = some (g ∷ fs) })

-- `erase(find(begin, end, f))`: the search starts at the vector's begin, our list's end.
erase_first : ℕ → List ℕ → Option (List ℕ)
erase_first f [] = none
erase_first f (g ∷ gs) = elim (erase_first f gs) [
  | some rest ↦ some (g ∷ rest)
  | none ↦ if g == f then some gs else none
]

-- The destructor of another factory. A vector of one element is deleted whatever it holds.
forget : ℕ → Option ℕ → Option (List ℕ) → Option Registry
unfolding erase_first
forget f active none = none
forget f active (some []) = none
forget f active (some (g ∷ [])) = some (record { active = active; previous = none })
forget f active (some (g ∷ h ∷ gs)) = elim (erase_first f (g ∷ h ∷ gs)) [
  | none ↦ none
  | some rest ↦ some (record { active = active; previous = some rest })
]

is_active : ℕ → Option ℕ → Bool
is_active f none = false
is_active f (some g) = g == f

pub destruct : ℕ → Registry → Option Registry
unfolding is_active reactivate forget
destruct f r = if is_active f r.active then reactivate r.previous else forget f r.active r.previous

-- `getLogger` asks the active factory, if there is one.
pub get_logger : Registry → Option ℕ
get_logger r = r.active

-- The life of the registry: factories are constructed and destroyed.
pub data Call : Type 0 where
  constructs destructs : ℕ → Call

step : Registry → Call → Option Registry
step r (constructs f) = some (construct f r)
step r (destructs f) = destruct f r

pub run : Registry → List Call → Option Registry
unfolding step
run r [] = some r
run r (c ∷ cs) = elim (step r c) [ none ↦ none | some q ↦ run q cs ]
