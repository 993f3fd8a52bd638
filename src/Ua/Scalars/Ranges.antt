-- ===== src/Ua/Scalars/Ranges.antt =====
-- The scalars that the data types of the standard are read as, and their ranges.
use opc_ua_server.Prelude.{
  ℕ, ◌%◌, ap, ◌<◌, ◌^◌, ◌≡◌, ◌≢◌, ◌⊎◌, refl, Option, none, some, [], ◌∷◌, Text, NoNul,
  c_str-eq_of_NoNul, arith,
}
use opc_ua_server.Prelude.Int.{ℤ, pos, negsuc, InSigned, to_signed, short_mod, int_mod}
use opc_ua_server.Io
use opc_ua_server.Ua.Sdk.{
  id_boolean, id_sbyte, id_byte, id_int16, id_uint16, id_int32, id_uint32, id_int64, id_uint64,
  id_float, id_double, id_string, id_date_time, id_byte_string, id_localized_text, id_enumeration,
  id_duration, id_utc_time,
}
use opc_ua_server.Ua.ToUa.{map_c_str}
use opc_ua_server.Ua.ToIo.{text_of}

-- A text that C strings and the SDK carry: null, or not empty and without NUL.
abbrev pub PlainText : Option Text → Type 0
PlainText none = Unit {0}
PlainText (some []) = ⊥
PlainText (some (c ∷ s)) = NoNul (c ∷ s)

-- The scalar is of the kind that the standard's data type `t` is read as, and in its range.
abbrev pub Canonical : Io.Scalar → ℕ → Type 0
Canonical (Io.Scalar.bool b) t = t ≡ id_boolean
Canonical (Io.Scalar.schar z) t = t ≡ id_sbyte
Canonical (Io.Scalar.char c) t = t ≡ id_byte
Canonical (Io.Scalar.int z) t = (t ≡ id_int16) × InSigned (2 ^ 15) z
Canonical (Io.Scalar.uint n) t = (t ≡ id_uint16) × (n < 2 ^ 16)
Canonical (Io.Scalar.long z) t = ((t ≡ id_int32) ⊎ (t ≡ id_enumeration)) × InSigned (2 ^ 31) z
Canonical (Io.Scalar.ulong n) t = (t ≡ id_uint32) × (n < 2 ^ 32)
Canonical (Io.Scalar.llong z) t = (t ≡ id_int64) ⊎ ((t ≡ id_date_time) ⊎ (t ≡ id_utc_time))
Canonical (Io.Scalar.ullong n) t = t ≡ id_uint64
Canonical (Io.Scalar.float f) t = t ≡ id_float
Canonical (Io.Scalar.double d) t = (t ≡ id_double) ⊎ (t ≡ id_duration)
Canonical (Io.Scalar.string_value s) t = (t ≡ id_string) × PlainText s
Canonical (Io.Scalar.byte_string s) t = (t ≡ id_byte_string) × (s ≢ some [])
Canonical (Io.Scalar.localized_text l s) t = (t ≡ id_localized_text) × PlainText l × PlainText s

pub to_signed_short : (z : ℤ) → InSigned (2 ^ 15) z → to_signed short_mod z ≡ z
to_signed_short (pos n) h = ground arith
to_signed_short (negsuc n) h = ground arith

pub to_signed_int : (z : ℤ) → InSigned (2 ^ 31) z → to_signed int_mod z ≡ z
to_signed_int (pos n) h = ground arith
to_signed_int (negsuc n) h = ground arith

pub short_fits : (n : ℕ) → n < 2 ^ 16 → n % short_mod ≡ n
short_fits n h = ground arith

pub int_fits : (n : ℕ) → n < 2 ^ 32 → n % int_mod ≡ n
int_fits n h = ground arith

pub plain_not_empty : (s : Option Text) → PlainText s → s ≢ some []
plain_not_empty none h e = cc
plain_not_empty (some []) h e = h
plain_not_empty (some (c ∷ s)) h e = cc

pub map_c_str-plain : (s : Option Text) → PlainText s → map_c_str s ≡ s
unfolding map_c_str
map_c_str-plain none h = refl
map_c_str-plain (some []) h = elim h [ ]
map_c_str-plain (some (c ∷ s)) h = ap some (c_str-eq_of_NoNul (c ∷ s) h)

pub text_of-plain : (s : Option Text) → PlainText s → text_of s ≡ s
unfolding text_of
text_of-plain none h = refl
text_of-plain (some []) h = elim h [ ]
text_of-plain (some (c ∷ s)) h = ap some (c_str-eq_of_NoNul (c ∷ s) h)
