-- ===== src/Binary/ParamId/RoundTrip.antt =====
-- ParamId::toString followed by the constructor from a text.
use opc_ua_server.Prelude.{
  ℕ, none, ◌≤◌, ◌==◌, length, Bool-cases, inl, inr, ◌+◌, ◌^◌, ◌<◌, ◌≡◌, ◌≢◌, refl, ap, ap₂, ◌∙◌,
  List, [], ◌∷◌, ◌++◌, Text, bytes, All, c_str, arith, show_nat, show_int, read_digits,
  read_digits-show_nat, show_nat-Digit, show_nat-cons, Digit,
}
use opc_ua_server.Prelude.Int.{ℤ, pos, negsuc, InSigned, long_mod}
use opc_ua_server.Prelude.Result.{undefined}
use opc_ua_server.Binary.Dto.{numeric, string}
use opc_ua_server.Binary.ParamId.{
  to_string, split, read_int, read_ulong, int_of_size, int_of_negated, ulong_of_size, numeric_id,
  string_id, Memory, get_string, write, allocate, destroy, namespace_of, parse_pieces, parse,
}
use opc_ua_server.Binary.ParamId.Split.{Avoids, split-append, split_whole, split-cons}

-- Digits are neither space nor sign, and no delimiter.
Digit-Avoids : (d : ℕ) (s : Text) → 57 < d → All Digit s → Avoids d s
Digit-Avoids d [] l h = tt
Digit-Avoids d (c ∷ s) l h = (omega arith, Digit-Avoids d s l h.1)

show_int-Avoids : (d : ℕ) (z : ℤ) → 57 < d → Avoids d (show_int z)
unfolding show_int
show_int-Avoids d (pos n) l = Digit-Avoids d (show_nat n) l (show_nat-Digit n)
show_int-Avoids d (negsuc n) l =
    (omega arith, Digit-Avoids d (show_nat (n + 1)) l (show_nat-Digit (n + 1)))

read_int_digits : (s : Text) → All Digit s → read_int s ≡ int_of_size (read_digits 0 s)
unfolding read_int read_digits
read_int_digits [] h = ground arith
read_int_digits (c ∷ s) h = ground arith

read_ulong_digits : (s : Text) → All Digit s → read_ulong s ≡ ulong_of_size (read_digits 0 s)
unfolding read_ulong read_digits
read_ulong_digits [] h = ground arith
read_ulong_digits (c ∷ s) h = ground arith

int_of_size_lem : (n : ℕ) → n < 2 ^ 31 → int_of_size n ≡ pos n
unfolding int_of_size
int_of_size_lem n h = ground arith

int_of_negated_lem : (n : ℕ) → n < 2 ^ 31 → int_of_negated (n + 1) ≡ negsuc n
unfolding int_of_negated
int_of_negated_lem n h = ground arith

ulong_of_size_lem : (n : ℕ) → n < long_mod → ulong_of_size n ≡ n
unfolding ulong_of_size
ulong_of_size_lem n h = ground arith

read_int_minus : (s : Text) → read_int (b'-' ∷ s) ≡ int_of_negated (read_digits 0 s)
unfolding read_int
read_int_minus s = refl

read_int-show_int : (z : ℤ) → InSigned (2 ^ 31) z → read_int (show_int z) ≡ z
unfolding show_int
read_int-show_int (pos n) h =
    read_int_digits (show_nat n) (show_nat-Digit n)
    ∙ rw (read_digits-show_nat n) (int_of_size_lem n h)
read_int-show_int (negsuc n) h =
    read_int_minus (show_nat (n + 1)) ∙ rw (read_digits-show_nat (n + 1)) (int_of_negated_lem n h)

read_ulong-show_nat : (n : ℕ) → n < long_mod → read_ulong (show_nat n) ≡ n
read_ulong-show_nat n h =
    read_ulong_digits (show_nat n) (show_nat-Digit n)
    ∙ rw (read_digits-show_nat n) (ulong_of_size_lem n h)

show_int-cons : (z : ℤ) → (d : ℕ) × (s : Text) × (show_int z ≡ d ∷ s)
unfolding show_int
show_int-cons (pos n) = show_nat-cons n
show_int-cons (negsuc n) = (b'-', show_nat (n + 1), refl)

split_number : (n : ℕ) → split (show_nat n) b'|' ≡ show_nat n ∷ []
split_number n =
    let (d, s, e) = show_nat-cons n in
    split_whole (show_nat n) d s b'|' e
      (Digit-Avoids b'|' (show_nat n) (omega arith) (show_nat-Digit n))

-- The namespace's piece, "NS" and the index.
ns_piece : ℤ → Text
ns_piece ns = b'N' ∷ b'S' ∷ show_int ns

ns_piece-Avoids : (ns : ℤ) → Avoids b'|' (ns_piece ns)
unfolding ns_piece
ns_piece-Avoids ns = (omega arith, (omega arith, show_int-Avoids b'|' ns (omega arith)))

namespace_of-ns_piece :
    (ns : ℤ) → InSigned (2 ^ 31) ns → namespace_of (split (ns_piece ns) b'S') ≡ ns
unfolding namespace_of ns_piece
namespace_of-ns_piece ns h =
    let (d, s, e) = show_int-cons ns in
    rw
      (
        split-append (b'N' ∷ []) (show_int ns) b'S' (omega arith, tt),
        split_whole (show_int ns) d s b'S' e (show_int-Avoids b'S' ns (omega arith)),
      )
      (read_int-show_int ns h)

-- The text of a text id or a numeric one, cut at its first two delimiters.
split-to_string :
    (ns : ℤ) (kind rest : Text)
    → Avoids b'|' kind
    → split (ns_piece ns ++ (b'|' ∷ (kind ++ (b'|' ∷ rest)))) b'|'
      ≡ ns_piece ns ∷ kind ∷ split rest b'|'
split-to_string ns kind rest h =
    split-append (ns_piece ns) (kind ++ (b'|' ∷ rest)) b'|' (ns_piece-Avoids ns)
    ∙ ap (λ ps. ns_piece ns ∷ ps) (split-append kind rest b'|' h)

-- The text of a numeric id, whose namespace index is a 32-bit `int` and whose number is below
-- 2 ^ 32, is read back as that id, whatever the memory holds.
pub parse-to_string :
    (ns : ℤ) (id : ℕ) (m : Memory)
    → InSigned (2 ^ 31) ns
    → id < long_mod
    → (parse (to_string (numeric ns id)) m).0 ≡ numeric_id ns id
unfolding parse to_string ns_piece
parse-to_string ns id m h k =
    ap (parse_pieces m.next) (
      split-to_string ns (bytes "Numeric") (show_nat id) (omega arith)
      ∙ ap (λ ps. ns_piece ns ∷ bytes "Numeric" ∷ ps) (split_number id))
    ∙ ap₂ numeric_id (namespace_of-ns_piece ns h) (read_ulong-show_nat id k)

split_not_empty : (s : Text) → s ≢ [] → (q : Text) × (qs : List Text) × (split s b'|' ≡ q ∷ qs)
split_not_empty [] h = absurd (h refl)
split_not_empty (c ∷ s) h = split-cons c s b'|'

-- No address of the elements holds a string any more.
destroy_lem :
    (a b : ℕ) (ss : List Text) (m : Memory)
    → a ≤ b
    → b < a + length ss
    → (destroy a ss m).strings b ≡ none
unfolding destroy write
destroy_lem a b [] m l k = absurd (omega arith)
destroy_lem a b (s ∷ ss) m l k = elim (Bool-cases (b == a)) [
  | inl e ↦ rw e refl
  | inr e ↦
      let n : a + 1 ≤ b = ground arith in rw e (destroy_lem (a + 1) b ss m n (omega (arith, k)))
]

get_string_gone :
    (ns : ℤ) (a : ℕ) (m : Memory) → m.strings a ≡ none → get_string (string_id ns a) m ≡ undefined
unfolding get_string
get_string_gone ns a m e = rw (get_string, e) refl

split_string :
    (ns : ℤ) (s : Text)
    → c_str s ≢ []
    → (q : Text) × (qs : List Text) × (split (to_string (string ns s)) b'|'
        ≡ ns_piece ns ∷ bytes "String" ∷ q ∷ qs)
unfolding to_string ns_piece
split_string ns s k =
    let (q, qs, e) = split_not_empty (c_str s) k in
    (
      q,
      qs,
      split-to_string ns (bytes "String") (c_str s) (omega arith)
          ∙ ap (λ ps. ns_piece ns ∷ bytes "String" ∷ ps) e,
    )

-- The text of a text id, whose namespace index is a 32-bit `int` and whose C string is not empty, is
-- read back as an id of that namespace with the address of the third piece; when the constructor has
-- returned no string is there, whatever the memory held before, and reading the id's text is undefined.
pub parse-to_string_dangles :
    (ns : ℤ) (s : Text) (m : Memory)
    → InSigned (2 ^ 31) ns
    → c_str s ≢ []
    → let (p, after) = parse (to_string (string ns s)) m in
      (p ≡ string_id ns (m.next + 2)) × (get_string p after ≡ undefined)
unfolding parse parse_pieces
parse-to_string_dangles ns s m h k =
    let (q, qs, e) = split_string ns s k in
    let pieces = ns_piece ns ∷ bytes "String" ∷ q ∷ qs in
    rw (e, namespace_of-ns_piece ns h)
      (
        refl,
        get_string_gone ns (m.next + 2) (destroy m.next pieces (allocate pieces m)) (
            destroy_lem m.next (m.next + 2) pieces (allocate pieces m) (omega arith) (omega arith)),
      )
