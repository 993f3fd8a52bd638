-- ===== src/Ua/Scalars/Kinds.antt =====
-- The scalar cases of both directions of ConverterUa2IO.cpp, type by type.
use opc_ua_server.Prelude.{
  ℕ, sym, ap, ap₂, Bool-cases, ◌<◌, ◌^◌, ◌≡◌, ◌≢◌, inl, inr, refl, Bool, false, Option, none, some,
  [], Text, ◌==◌, ◌||◌, arith,
}
use opc_ua_server.Prelude.Int.{ℤ, InSigned}
use opc_ua_server.Prelude.Result.{Result, ok}
use opc_ua_server.Io
use opc_ua_server.Ua.Sdk.{
  Sdk, Lawful, UaNodeId, id_boolean, id_sbyte, id_byte, id_int16, id_uint16, id_int32, id_uint32,
  id_int64, id_uint64, id_float, id_double, id_string, id_date_time, id_byte_string,
  id_localized_text, id_enumeration, id_duration, id_utc_time, id_structure, id_union,
}
use opc_ua_server.Ua.Sdk
use opc_ua_server.Ua.ToUa.{Callback, io_to_ua}
use opc_ua_server.Ua.ToIo.{from_number, io_localized_text}
use opc_ua_server.Ua.Scalars.Ranges.{
  PlainText, Canonical, to_signed_short, to_signed_int, short_fits, int_fits, plain_not_empty,
  map_c_str-plain, text_of-plain,
}

module _ (sdk : Sdk) (laws : Lawful sdk) where
  -- `v` is written for the data type `t` as a scalar that reads as `v`.
  abbrev pub Carried : Io.Scalar → ℕ → Type 0
  Carried v t =
      (u : sdk.UaVariant) × ((b : Callback)
        → io_to_ua sdk (Io.Variant.scalar v) b (Sdk.UaNodeId.numeric 0 t) ≡ ok u)
      × (sdk.is_array u ≡ false)
      × ((t == id_structure || t == id_union) ≡ false)
      × ((f : sdk.UaVariant → UaNodeId → Result Io.Variant)
          → from_number sdk f u t ≡ ok (some (Io.Variant.scalar v)))

  bool-Carried : (b : Bool) → Carried (Io.Scalar.bool b) id_boolean
  unfolding io_to_ua from_number
  bool-Carried b = (
    sdk.set_bool b,
    (λ cb. rw (laws.numeric_kept) refl),
    laws.is_scalar (sdk.set_bool b) (rw (laws.bool_kept b).0 (ground arith)),
    refl,
    λ f. rw ((laws.bool_kept b).0, (laws.bool_kept b).1) refl,
  )

  schar-Carried : (z : ℤ) → Carried (Io.Scalar.schar z) id_sbyte
  unfolding io_to_ua from_number
  schar-Carried z = (
    sdk.set_sbyte z,
    (λ cb. rw (laws.numeric_kept) refl),
    laws.is_scalar (sdk.set_sbyte z) (rw (laws.sbyte_kept z).0 (ground arith)),
    refl,
    λ f. rw ((laws.sbyte_kept z).0, (laws.sbyte_kept z).1) refl,
  )

  char-Carried : (c : ℕ) → Carried (Io.Scalar.char c) id_byte
  unfolding io_to_ua from_number
  char-Carried c = (
    sdk.set_byte c,
    (λ cb. rw (laws.numeric_kept) refl),
    laws.is_scalar (sdk.set_byte c) (rw (laws.byte_kept c).0 (ground arith)),
    refl,
    λ f. rw ((laws.byte_kept c).0, (laws.byte_kept c).1) refl,
  )

  int-Carried : (z : ℤ) → InSigned (2 ^ 15) z → Carried (Io.Scalar.int z) id_int16
  unfolding io_to_ua from_number
  int-Carried z h = (
    sdk.set_int16 z,
    (λ cb. rw (laws.numeric_kept, to_signed_short z h) refl),
    laws.is_scalar (sdk.set_int16 z) (rw (laws.int16_kept z).0 (ground arith)),
    refl,
    λ f. rw ((laws.int16_kept z).0, (laws.int16_kept z).1) refl,
  )

  uint-Carried : (n : ℕ) → n < 2 ^ 16 → Carried (Io.Scalar.uint n) id_uint16
  unfolding io_to_ua from_number
  uint-Carried n h = (
    sdk.set_uint16 n,
    (λ cb. rw (laws.numeric_kept, short_fits n h) refl),
    laws.is_scalar (sdk.set_uint16 n) (rw (laws.uint16_kept n).0 (ground arith)),
    refl,
    λ f. rw ((laws.uint16_kept n).0, (laws.uint16_kept n).1) refl,
  )

  long-Carried : (z : ℤ) → InSigned (2 ^ 31) z → Carried (Io.Scalar.long z) id_int32
  unfolding io_to_ua from_number
  long-Carried z h = (
    sdk.set_int32 z,
    (λ cb. rw (laws.numeric_kept, to_signed_int z h) refl),
    laws.is_scalar (sdk.set_int32 z) (rw (laws.int32_kept z).0 (ground arith)),
    refl,
    λ f. rw ((laws.int32_kept z).0, (laws.int32_kept z).1) refl,
  )

  enumeration-Carried : (z : ℤ) → InSigned (2 ^ 31) z → Carried (Io.Scalar.long z) id_enumeration
  unfolding io_to_ua from_number
  enumeration-Carried z h = (
    sdk.set_int32 z,
    (λ cb. rw (laws.numeric_kept, to_signed_int z h) refl),
    laws.is_scalar (sdk.set_int32 z) (rw (laws.int32_kept z).0 (ground arith)),
    refl,
    λ f. rw ((laws.int32_kept z).0, (laws.int32_kept z).1) refl,
  )

  ulong-Carried : (n : ℕ) → n < 2 ^ 32 → Carried (Io.Scalar.ulong n) id_uint32
  unfolding io_to_ua from_number
  ulong-Carried n h = (
    sdk.set_uint32 n,
    (λ cb. rw (laws.numeric_kept, int_fits n h) refl),
    laws.is_scalar (sdk.set_uint32 n) (rw (laws.uint32_kept n).0 (ground arith)),
    refl,
    λ f. rw ((laws.uint32_kept n).0, (laws.uint32_kept n).1) refl,
  )

  llong-Carried : (z : ℤ) → Carried (Io.Scalar.llong z) id_int64
  unfolding io_to_ua from_number
  llong-Carried z = (
    sdk.set_int64 z,
    (λ cb. rw (laws.numeric_kept) refl),
    laws.is_scalar (sdk.set_int64 z) (rw (laws.int64_kept z).0 (ground arith)),
    refl,
    λ f. rw ((laws.int64_kept z).0, (laws.int64_kept z).1) refl,
  )

  date_time-Carried : (z : ℤ) → Carried (Io.Scalar.llong z) id_date_time
  unfolding io_to_ua from_number
  date_time-Carried z = (
    sdk.set_date_time z,
    (λ cb. rw (laws.numeric_kept) refl),
    laws.is_scalar (sdk.set_date_time z) (rw (laws.date_time_kept z).0 (ground arith)),
    refl,
    λ f. rw ((laws.date_time_kept z).0, (laws.date_time_kept z).1) refl,
  )

  utc_time-Carried : (z : ℤ) → Carried (Io.Scalar.llong z) id_utc_time
  unfolding io_to_ua from_number
  utc_time-Carried z = (
    sdk.set_date_time z,
    (λ cb. rw (laws.numeric_kept) refl),
    laws.is_scalar (sdk.set_date_time z) (rw (laws.date_time_kept z).0 (ground arith)),
    refl,
    λ f. rw ((laws.date_time_kept z).0, (laws.date_time_kept z).1) refl,
  )

  ullong-Carried : (n : ℕ) → Carried (Io.Scalar.ullong n) id_uint64
  unfolding io_to_ua from_number
  ullong-Carried n = (
    sdk.set_uint64 n,
    (λ cb. rw (laws.numeric_kept) refl),
    laws.is_scalar (sdk.set_uint64 n) (rw (laws.uint64_kept n).0 (ground arith)),
    refl,
    λ f. rw ((laws.uint64_kept n).0, (laws.uint64_kept n).1) refl,
  )

  float-Carried : (f : ℕ) → Carried (Io.Scalar.float f) id_float
  unfolding io_to_ua from_number
  float-Carried f = (
    sdk.set_float f,
    (λ cb. rw (laws.numeric_kept) refl),
    laws.is_scalar (sdk.set_float f) (rw (laws.float_kept f).0 (ground arith)),
    refl,
    λ g. rw ((laws.float_kept f).0, (laws.float_kept f).1) refl,
  )

  double-Carried : (d : ℕ) → Carried (Io.Scalar.double d) id_double
  unfolding io_to_ua from_number
  double-Carried d = (
    sdk.set_double d,
    (λ cb. rw (laws.numeric_kept) refl),
    laws.is_scalar (sdk.set_double d) (rw (laws.double_kept d).0 (ground arith)),
    refl,
    λ f. rw ((laws.double_kept d).0, (laws.double_kept d).1) refl,
  )

  duration-Carried : (d : ℕ) → Carried (Io.Scalar.double d) id_duration
  unfolding io_to_ua from_number
  duration-Carried d = (
    sdk.set_double d,
    (λ cb. rw (laws.numeric_kept) refl),
    laws.is_scalar (sdk.set_double d) (rw (laws.double_kept d).0 (ground arith)),
    refl,
    λ f. rw ((laws.double_kept d).0, (laws.double_kept d).1) refl,
  )

  string-Carried : (s : Option Text) → PlainText s → Carried (Io.Scalar.string_value s) id_string
  unfolding io_to_ua from_number
  string-Carried none h =
      let kept = laws.string_kept none (plain_not_empty none h) in
      (
        sdk.set_string none,
        (λ cb. rw laws.numeric_kept refl),
        laws.is_scalar (sdk.set_string none) (rw kept.0 (ground arith)),
        refl,
        λ f. rw (kept.0, kept.1) refl,
      )
  string-Carried (some s) h =
      let kept = laws.string_kept (some s) (plain_not_empty (some s) h) in
      (
        sdk.set_string (some s),
        (λ cb. rw (laws.numeric_kept, map_c_str-plain (some s) h) refl),
        laws.is_scalar (sdk.set_string (some s)) (rw kept.0 (ground arith)),
        refl,
        λ f. rw (kept.0, kept.1, text_of-plain (some s) h) refl,
      )

  byte_string-Carried :
      (s : Option Text) → s ≢ some [] → Carried (Io.Scalar.byte_string s) id_byte_string
  unfolding io_to_ua from_number
  byte_string-Carried s h =
      let kept = laws.byte_string_kept s h in
      (
        sdk.set_byte_string s,
        (λ cb. rw laws.numeric_kept refl),
        laws.is_scalar (sdk.set_byte_string s) (rw kept.0 (ground arith)),
        refl,
        λ f. rw (kept.0, kept.1) refl,
      )

  io_localized_text-plain :
      (l t : Option Text)
      → PlainText l
      → PlainText t
      → io_localized_text sdk (l, t) ≡ Io.Scalar.localized_text l t
  unfolding io_localized_text
  io_localized_text-plain l t hl ht = elim (Bool-cases (sdk.is_null_text (l, t))) [
    | inl null ↦
        let same = laws.null_text (l, t) null in
        rw null (ap₂ Io.Scalar.localized_text (sym (ap (λ p. p.0) same)) (sym (ap (λ p. p.1) same)))
    | inr text ↦ rw (text, text_of-plain l hl, text_of-plain t ht) refl
  ]

  localized_text-Carried :
      (l t : Option Text)
      → PlainText l
      → PlainText t
      → Carried (Io.Scalar.localized_text l t) id_localized_text
  unfolding io_to_ua from_number
  localized_text-Carried l t hl ht =
      let kept = laws.localized_text_kept (l, t) (plain_not_empty l hl) (plain_not_empty t ht) in
      (
        sdk.set_localized_text (l, t),
        (λ cb. rw (laws.numeric_kept, map_c_str-plain l hl, map_c_str-plain t ht) refl),
        laws.is_scalar (sdk.set_localized_text (l, t)) (rw kept.0 (ground arith)),
        refl,
        λ f. rw (kept.0, kept.1, io_localized_text-plain l t hl ht) refl,
      )

  pub Canonical-Carried : (v : Io.Scalar) (t : ℕ) → Canonical v t → Carried v t
  Canonical-Carried (Io.Scalar.bool b) t h = rw h (bool-Carried b)
  Canonical-Carried (Io.Scalar.schar z) t h = rw h (schar-Carried z)
  Canonical-Carried (Io.Scalar.char c) t h = rw h (char-Carried c)
  Canonical-Carried (Io.Scalar.int z) t (h, b) = rw h (int-Carried z b)
  Canonical-Carried (Io.Scalar.uint n) t (h, b) = rw h (uint-Carried n b)
  Canonical-Carried (Io.Scalar.long z) t (inl h, b) = rw h (long-Carried z b)
  Canonical-Carried (Io.Scalar.long z) t (inr h, b) = rw h (enumeration-Carried z b)
  Canonical-Carried (Io.Scalar.ulong n) t (h, b) = rw h (ulong-Carried n b)
  Canonical-Carried (Io.Scalar.llong z) t (inl h) = rw h (llong-Carried z)
  Canonical-Carried (Io.Scalar.llong z) t (inr (inl h)) = rw h (date_time-Carried z)
  Canonical-Carried (Io.Scalar.llong z) t (inr (inr h)) = rw h (utc_time-Carried z)
  Canonical-Carried (Io.Scalar.ullong n) t h = rw h (ullong-Carried n)
  Canonical-Carried (Io.Scalar.float f) t h = rw h (float-Carried f)
  Canonical-Carried (Io.Scalar.double d) t (inl h) = rw h (double-Carried d)
  Canonical-Carried (Io.Scalar.double d) t (inr h) = rw h (duration-Carried d)
  Canonical-Carried (Io.Scalar.string_value s) t (h, p) = rw h (string-Carried s p)
  Canonical-Carried (Io.Scalar.byte_string s) t (h, p) = rw h (byte_string-Carried s p)
  Canonical-Carried (Io.Scalar.localized_text l s) t (h, p, q) =
      rw h (localized_text-Carried l s p q)
