-- ===== src/Prelude/Result.antt =====
-- What a C++ call does: it returns, it throws, or its behaviour is undefined.
use Prim.Native.Nat.{ℕ}
use mathlib.Core.Path.{◌≡◌, refl, ap}
use mathlib.Core.Logic.{◌⊎◌, inl, inr}
use mathlib.Core.Bool.{Bool, true, false, ◌&&◌}
use mathlib.Core.List.{List, [], ◌∷◌}

-- The exceptions by the place that throws them.
pub data Error : Type 0 where
  invalid_id_type unsupported_variant_type unsupported_scalar_type unsupported_array_type : Error
  null_array no_base_type no_conversion out_of_range missing_field too_many_fields : Error
  nested_array invalid_status no_value_handling no_structure_definition no_super_types : Error
  synchronous_type subscription_failed unknown_source_node unknown_event_field : Error
  cannot_browse no_generator closed_session bad_answer bad_node cannot_add unknown_node : Error
  -- With the error code.
  call_failed : ℕ → Error
  -- The model's fuel is used up.
  too_deep : Error

pub data Result {ℓ} (A : Type ℓ) : Type ℓ where
  ok : A → Result A
  throws : Error → Result A
  undefined : Result A

-- The statements after a call are skipped unless it returns.
infixl 5 ◌>>=◌
abbrev pub ◌>>=◌ {ℓ κ} : {A : Type ℓ} {B : Type κ} → Result A → (A → Result B) → Result B
undefined >>= next = undefined
throws why >>= next = throws why
ok x >>= next = next x

-- A function of what the call returns.
abbrev pub fmap {ℓ κ} : {A : Type ℓ} {B : Type κ} → (A → B) → Result A → Result B
fmap g undefined = undefined
fmap g (throws why) = throws why
fmap g (ok x) = ok (g x)

-- The call has no undefined behaviour; it returns.
abbrev pub Defined {ℓ} : {A : Type ℓ} → Result A → Type 0
Defined undefined = ⊥
Defined m = Unit {0}

abbrev pub returns {ℓ} : {A : Type ℓ} → Result A → Bool
returns (ok x) = true
returns m = false

-- Every call of a list returns.
abbrev pub all_return {ℓ} : {A : Type ℓ} → List (Result A) → Bool
all_return [] = true
all_return (r ∷ rs) = returns r && all_return rs

-- What follows a call may be replaced by what is equal for each value.
pub bind_ext {ℓ κ} :
    {A : Type ℓ} {B : Type κ} (r : Result A) (f g : A → Result B)
    → ((x : A) → f x ≡ g x)
    → (r >>= f) ≡ (r >>= g)
bind_ext (ok x) f g h = h x
bind_ext (throws e) f g h = refl
bind_ext undefined f g h = refl

-- A function passes through a bind.
pub fmap_bind {ℓ} :
    {A : Type ℓ} (r : Result A) (p : A → A) (f g : A → Result A)
    → ((x : A) → f (p x) ≡ fmap p (g x))
    → (fmap p r >>= f) ≡ fmap p (r >>= g)
fmap_bind (ok x) p f g h = h x
fmap_bind (throws e) p f g h = refl
fmap_bind undefined p f g h = refl

-- A predicate of what the call returns, if it does.
abbrev pub Each {ℓ κ} : {A : Type ℓ} → (A → Type κ) → Result A → Type κ
Each P (ok x) = P x
Each P (throws e) = Unit
Each P undefined = Unit

pub Each-bind {ℓ κ μ ν} :
    {A : Type ℓ} {B : Type κ} (P : A → Type μ) (Q : B → Type ν) (r : Result A) (f : A → Result B)
    → Each P r
    → ((x : A) → P x → Each Q (f x))
    → Each Q (r >>= f)
Each-bind P Q (ok x) f h g = g x h
Each-bind P Q (throws e) f h g = tt
Each-bind P Q undefined f h g = tt

pub Each-fmap {ℓ κ μ} :
    {A : Type ℓ} {B : Type κ} (P : B → Type μ) (g : A → B) (r : Result A)
    → Each (λ x. P (g x)) r
    → Each P (fmap g r)
Each-fmap P g (ok x) h = h
Each-fmap P g (throws e) h = tt
Each-fmap P g undefined h = tt

pub fmap_comm {ℓ} :
    {A : Type ℓ} (f g : A → A) (r : Result A)
    → ((x : A) → f (g x) ≡ g (f x))
    → fmap f (fmap g r) ≡ fmap g (fmap f r)
fmap_comm f g (ok x) h = ap ok (h x)
fmap_comm f g (throws e) h = refl
fmap_comm f g undefined h = refl

-- To split on what a call does and keep the equation.
pub Result-cases {ℓ} :
    {A : Type ℓ} (r : Result A)
    → ((x : A) × (r ≡ ok x)) ⊎ (((e : Error) × (r ≡ throws e)) ⊎ (r ≡ undefined))
Result-cases (ok x) = inl (x, refl)
Result-cases (throws e) = inr (inl (e, refl))
Result-cases undefined = inr (inr refl)
