-- ===== src/Common/Exception/Chain.antt =====
-- An exception seen as the list of its frames, from the outermost to the root cause.
use mathlib.Core.List.{append_assoc}
use opc_ua_server.Prelude.{
  ℕ, ◌≡◌, refl, sym, ap, ◌∙◌, Option, none, some, List, [], ◌∷◌, ◌++◌, Text, bytes,
}
use opc_ua_server.Common.Exception.{
  Exception, plain, caused, copy, set_cause, get_error_code, get_stack_trace, frame,
}

-- The codes and the frames along the chain.
abbrev pub codes : Exception → List (Option ℕ)
codes (plain m f l c) = c ∷ []
codes (caused m f l c e) = c ∷ codes e

abbrev pub own_code : Exception → Option ℕ
own_code (plain m f l c) = c
own_code (caused m f l c e) = c

abbrev pub frames : Exception → List Text
frames (plain m f l c) = frame m f l ∷ []
frames (caused m f l c e) = frame m f l ∷ frames e

abbrev pub first_some : List (Option ℕ) → Option ℕ
first_some [] = none
first_some (none ∷ cs) = first_some cs
first_some (some c ∷ cs) = some c

-- The frames with the separator between them.
abbrev pub joined : Text → List Text → Text
joined sep [] = []
joined sep (t ∷ []) = t
joined sep (t ∷ u ∷ ts) = t ++ (sep ++ joined sep (u ∷ ts))

pub copy-eq : (e : Exception) → copy e ≡ e
unfolding copy
copy-eq (plain m f l c) = refl
copy-eq (caused m f l c e) = ap (caused m f l c) (copy-eq e)

get_error_code-first_some : (e : Exception) → get_error_code e ≡ first_some (codes e)
unfolding get_error_code
get_error_code-first_some (plain m f l none) = refl
get_error_code-first_some (plain m f l (some c)) = refl
get_error_code-first_some (caused m f l none e) = get_error_code-first_some e
get_error_code-first_some (caused m f l (some c) e) = refl

-- The code that a wrapped exception reports: its own if it has one, else what the cause reports.
pub get_error_code-set_cause :
    (e cause : Exception)
    → get_error_code (set_cause e cause) ≡ first_some (own_code e ∷ codes cause)
unfolding set_cause get_error_code
get_error_code-set_cause (plain m f l none) cause =
    rw (copy-eq cause) (get_error_code-first_some cause)
get_error_code-set_cause (plain m f l (some c)) cause = refl
get_error_code-set_cause (caused m f l none e) cause =
    rw (copy-eq cause) (get_error_code-first_some cause)
get_error_code-set_cause (caused m f l (some c) e) cause = refl

joined-cons :
    (sep t : Text) (e : Exception) → joined sep (t ∷ frames e) ≡ t ++ (sep ++ joined sep (frames e))
joined-cons sep t (plain m f l c) = refl
joined-cons sep t (caused m f l c e) = refl

-- The stack trace is the text given, then the frames of the chain from the outermost exception to
-- the root cause, with "Caused by" between them.
pub get_stack_trace-joined :
    (e : Exception) (trace : Text)
    → get_stack_trace e trace ≡ trace ++ joined (bytes "\nCaused by: ") (frames e)
unfolding get_stack_trace
get_stack_trace-joined (plain m f l c) trace = refl
get_stack_trace-joined (caused m f l c e) trace =
    let sep : Text = bytes "\nCaused by: " in
    let tail : Text = joined sep (frames e) in
    get_stack_trace-joined e ((trace ++ frame m f l) ++ sep)
    ∙ (append_assoc (trace ++ frame m f l) sep tail
        ∙ (append_assoc trace (frame m f l) (sep ++ tail)
            ∙ ap (λ t. trace ++ t) (sym (joined-cons sep (frame m f l) e))))
