-- ===== src/Common/LoggerFactory/Stack.antt =====
-- src/common/logging/LoggerFactory.cpp seen as a stack of factories, from which any may be removed.
use opc_ua_server.Prelude.{
  ℕ, ◌≡◌, refl, Bool, true, false, Option, none, some, List, [], ◌∷◌, ◌==◌, if◌then◌else◌, arith,
}
use opc_ua_server.Common.LoggerFactory.{
  Registry, initial, construct, destruct, get_logger, Call, constructs, destructs, run, erase_first,
}

-- The live factories, newest first.
abbrev pub contains : ℕ → List ℕ → Bool
contains f [] = false
contains f (g ∷ gs) = if g == f then true else contains f gs

abbrev pub without : ℕ → List ℕ → List ℕ
without f [] = []
without f (g ∷ gs) = if g == f then gs else g ∷ without f gs

abbrev pub Distinct : List ℕ → Type 0
Distinct [] = Unit {0}
Distinct (f ∷ fs) = (contains f fs ≡ false) × Distinct fs

abbrev pub newest : List ℕ → Option ℕ
newest [] = none
newest (f ∷ fs) = some f

-- The registry that stands for a stack.
abbrev pub of_stack : List ℕ → Registry
of_stack [] = record { active = none; previous = none }
of_stack (f ∷ []) = record { active = some f; previous = none }
of_stack (f ∷ g ∷ gs) = record { active = some f; previous = some (g ∷ gs) }

construct-of_stack : (f : ℕ) (fs : List ℕ) → construct f (of_stack fs) ≡ of_stack (f ∷ fs)
unfolding construct
construct-of_stack f [] = refl
construct-of_stack f (g ∷ []) = refl
construct-of_stack f (g ∷ h ∷ gs) = refl

erase_first_absent : (f : ℕ) (fs : List ℕ) → contains f fs ≡ false → erase_first f fs ≡ none
unfolding erase_first
erase_first_absent f [] h = refl
erase_first_absent f (g ∷ gs) h = ground (arith, erase_first_absent f gs)

erase_first_present :
    (f : ℕ) (fs : List ℕ)
    → Distinct fs
    → contains f fs ≡ true
    → erase_first f fs ≡ some (without f fs)
unfolding erase_first
erase_first_present f [] d h = cc
erase_first_present f (g ∷ gs) d h =
    ground (arith, erase_first_present f gs d.1, erase_first_absent f gs)

destruct-of_stack :
    (f : ℕ) (fs : List ℕ)
    → Distinct fs
    → contains f fs ≡ true
    → destruct f (of_stack fs) ≡ some (of_stack (without f fs))
unfolding destruct
destruct-of_stack f [] d h = cc
destruct-of_stack f (g ∷ []) d h = ground arith
destruct-of_stack f (g ∷ k ∷ []) d h = ground arith
destruct-of_stack f (g ∷ k ∷ l ∷ fs) d h = ground (arith, erase_first_present f (k ∷ l ∷ fs) d.1)

-- What the calls do to the stack. A construction brings a factory that is not live yet, and only
-- live ones are destroyed.
abbrev pub Admissible : List ℕ → List Call → Type 0
Admissible fs [] = Unit {0}
Admissible fs (constructs f ∷ cs) = (contains f fs ≡ false) × Admissible (f ∷ fs) cs
Admissible fs (destructs f ∷ cs) = (contains f fs ≡ true) × Admissible (without f fs) cs

abbrev pub live : List ℕ → List Call → List ℕ
live fs [] = fs
live fs (constructs f ∷ cs) = live (f ∷ fs) cs
live fs (destructs f ∷ cs) = live (without f fs) cs

contains-without :
    (f g : ℕ) (fs : List ℕ) → contains f fs ≡ false → contains f (without g fs) ≡ false
contains-without f g [] h = refl
contains-without f g (k ∷ fs) h = ground (arith, contains-without f g fs)

without-Distinct : (f : ℕ) (fs : List ℕ) → Distinct fs → Distinct (without f fs)
without-Distinct f [] d = tt
without-Distinct f (g ∷ fs) d =
    ground (arith, without-Distinct f fs d.1, contains-without g f fs d.0)

run-of_stack :
    (fs : List ℕ) (cs : List Call)
    → Distinct fs
    → Admissible fs cs
    → run (of_stack fs) cs ≡ some (of_stack (live fs cs))
unfolding run
run-of_stack fs [] d a = refl
run-of_stack fs (constructs f ∷ cs) d a =
    rw (construct-of_stack f fs) (run-of_stack (f ∷ fs) cs (a.0, d) a.1)
run-of_stack fs (destructs f ∷ cs) d a =
    rw (destruct-of_stack f fs d a.0, run)
      (run-of_stack (without f fs) cs (without-Distinct f fs d) a.1)

-- After any history from the start in which only factories that are not live are constructed and
-- only live ones destroyed, in any order, no operation was undefined and the registry is the one that
-- stands for the live factories, newest first.
pub run-initial :
    (cs : List Call) → Admissible [] cs → run initial cs ≡ some (of_stack (live [] cs))
unfolding initial
run-initial cs a = run-of_stack [] cs tt a

-- `getLogger` asks the newest factory of a stack.
pub get_logger-newest : (fs : List ℕ) → get_logger (of_stack fs) ≡ newest fs
unfolding get_logger
get_logger-newest [] = refl
get_logger-newest (f ∷ []) = refl
get_logger-newest (f ∷ g ∷ gs) = refl
