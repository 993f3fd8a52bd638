-- ===== src/Binary/ParamId.antt =====
-- src/provider/binary/messages/dto/ParamId.cpp: an id as text, "NS0|Numeric|1007", and back.
pub mod Split
pub mod RoundTrip
mod Tests
use opc_ua_server.Prelude.{
  ℕ, ◌+◌, ◌-◌, ◌%◌, ◌^◌, Bool, true, false, ◌&&◌, ◌||◌, Option, none, some, List, [], ◌∷◌, ◌++◌,
  Text, bytes, text_eq, c_str, ltb, leb, ◌==◌, if◌then◌else◌, show_nat, show_int, read_digits,
}
use opc_ua_server.Prelude.Int.{ℤ, pos, negsuc, long_mod}
use opc_ua_server.Prelude.Result.{Result, ok, undefined}
use opc_ua_server.Binary.Dto.{ParamId, numeric, string}

-- toString
unfoldable pub to_string : ParamId → Text
to_string (numeric ns id) =
    bytes "NS" ++ (show_int ns ++ (bytes "|" ++ (bytes "Numeric|" ++ show_nat id)))
to_string (string ns s) = bytes "NS" ++ (show_int ns ++ (bytes "|" ++ (bytes "String|" ++ c_str s)))

-- split: `getline` up to the delimiter. After the last delimiter an empty rest is no piece.
unfoldable pub split_onto : Text → Text → ℕ → List Text
split_onto [] [] d = []
split_onto (c ∷ piece) [] d = (c ∷ piece) ∷ []
split_onto piece (c ∷ s) d = elim (c == d) [
  | true ↦ piece ∷ split_onto [] s d
  | false ↦ split_onto (piece ++ (c ∷ [])) s d
]

unfoldable pub split : Text → ℕ → List Text
unfolding split_onto
split s d = split_onto [] s d

-- `istringstream >> n` skips white space, reads a sign and digits, and saturates; it stores 0 where
-- there is no digit.
is_space : ℕ → Bool
is_space c = c == 32 || leb 9 c && leb c 13

skip_space : Text → Text
unfolding is_space
skip_space [] = []
skip_space (c ∷ s) = if is_space c then skip_space s else c ∷ s

int_of_size : ℕ → ℤ
int_of_size n = if ltb n (2 ^ 31) then pos n else pos (2 ^ 31 - 1)

int_of_negated : ℕ → ℤ
int_of_negated n =
    if n == 0 then pos 0 else if leb n (2 ^ 31) then negsuc (n - 1) else negsuc (2 ^ 31 - 1)

int_after_space : Text → ℤ
unfolding int_of_size int_of_negated
int_after_space [] = pos 0
int_after_space (c ∷ s) =
    if c == b'-'
    then int_of_negated (read_digits 0 s)
    else if c == b'+'
    then int_of_size (read_digits 0 s)
    else int_of_size (read_digits 0 (c ∷ s))

unfoldable pub read_int : Text → ℤ
unfolding skip_space int_after_space
read_int s = int_after_space (skip_space s)

-- For an `unsigned long`, a minus sign negates modulo 2 ^ 32.
ulong_of_size : ℕ → ℕ
ulong_of_size n = if ltb n long_mod then n else long_mod - 1

ulong_after_space : Text → ℕ
unfolding ulong_of_size
ulong_after_space [] = 0
ulong_after_space (c ∷ s) =
    if c == b'-'
    then (if ltb (read_digits 0 s) long_mod
        then (long_mod - read_digits 0 s) % long_mod
        else long_mod - 1)
    else if c == b'+'
    then ulong_of_size (read_digits 0 s)
    else ulong_of_size (read_digits 0 (c ∷ s))

unfoldable pub read_ulong : Text → ℕ
unfolding skip_space ulong_after_space
read_ulong s = ulong_after_space (skip_space s)

-- The strings by their addresses, with the next free one.
pub record Memory : Type 0 where
  pub next : ℕ
  pub strings : ℕ → Option Text

-- A numeric id, or one that has the address of its text.
pub data Parsed : Type 0 where
  numeric_id : ℤ → ℕ → Parsed
  string_id : ℤ → ℕ → Parsed

-- `*d->stringId`
unfoldable pub get_string : Parsed → Memory → Result Text
get_string (numeric_id ns i) m = undefined
get_string (string_id ns a) m = elim (m.strings a) [ none ↦ undefined | some s ↦ ok s ]

unfoldable pub write : ℕ → Option Text → Memory → Memory
write a o m = record m { strings = λ b. if b == a then o else m.strings b }

-- A vector's elements are made one after the other, and destroyed with the vector.
unfoldable pub allocate : List Text → Memory → Memory
unfolding write
allocate [] m = m
allocate (s ∷ ss) m = allocate ss (record (write m.next (some s) m) { next = m.next + 1 })

unfoldable pub destroy : ℕ → List Text → Memory → Memory
unfolding write
destroy a [] m = m
destroy a (s ∷ ss) m = write a none (destroy (a + 1) ss m)

-- The first piece, split at 'S'; the namespace index is 0 where it is missing.
unfoldable pub namespace_of : List Text → ℤ
unfolding read_int
namespace_of (a ∷ b ∷ rest) = read_int b
namespace_of pieces = pos 0

-- The body of the constructor, with the address of the first piece: a text id keeps that of the third. Without
-- three pieces the object stays zeroed.
unfoldable pub parse_pieces : ℕ → List Text → Parsed
unfolding namespace_of split read_ulong text_eq
parse_pieces a (ns ∷ type ∷ id ∷ rest) =
    if text_eq type (bytes "Numeric")
    then numeric_id (namespace_of (split ns b'S')) (read_ulong id)
    else string_id (namespace_of (split ns b'S')) (a + 2)
parse_pieces a pieces = numeric_id (pos 0) 0

-- The constructor: the vector of the pieces is local.
unfoldable pub parse : Text → Memory → Parsed × Memory
unfolding parse_pieces split allocate destroy
parse s m =
    let pieces = split s b'|' in
    (parse_pieces m.next pieces, destroy m.next pieces (allocate pieces m))
