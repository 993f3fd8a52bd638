-- ===== src/Generator/Types.antt =====
-- src/sasModelProvider/base/generator/DataGenerator.cpp: the types of the generated values.
use opc_ua_server.Prelude.{
  ℕ, suc, [], ◌≢◌, Bool, true, false, some, ◌≡◌, refl, ◌==◌, ◌||◌, if◌then◌else◌, arith, ◌∙◌,
}
use opc_ua_server.Prelude.Int.{ℤ}
use opc_ua_server.Prelude.Result.{ok}
use opc_ua_server.Ua.Sdk.{
  Sdk, Lawful, UaNodeId, ua_namespace, id_boolean, id_sbyte, id_byte, id_int16, id_uint16, id_int32,
  id_uint32, id_int64, id_uint64, id_float, id_double, id_string, id_date_time, id_byte_string,
  id_localized_text, id_enumeration, id_duration, id_utc_time, id_structure, id_union,
}
use opc_ua_server.Generator.{
  Source, Kind, kind_of, generate_kind, generate_build_in_type, and_then, generate,
  get_build_in_type, numbered, is_structured,
}

-- The type of a variant with a value of the data type.
abbrev pub variant_type : ℕ → ℕ
variant_type t =
    if t == id_duration
    then id_double
    else if t == id_utc_time
    then id_date_time
    else if t == id_enumeration
    then id_int32
    else t

abbrev pub type_id : Kind → ℕ
type_id Kind.boolean = id_boolean
type_id Kind.sbyte = id_sbyte
type_id Kind.byte = id_byte
type_id Kind.int16 = id_int16
type_id Kind.uint16 = id_uint16
type_id Kind.int32 = id_int32
type_id Kind.uint32 = id_uint32
type_id Kind.int64 = id_int64
type_id Kind.uint64 = id_uint64
type_id Kind.float = id_float
type_id Kind.double = id_double
type_id Kind.text = id_string
type_id Kind.date_time = id_date_time
type_id Kind.byte_string = id_byte_string
type_id Kind.localized_text = id_localized_text
type_id Kind.enumeration = id_int32

type_id-kind_of : (t : ℕ) (k : Kind) → kind_of t ≡ some k → type_id k ≡ variant_type t
unfolding kind_of
type_id-kind_of t k e = ground arith

-- The cases that read and increment the counter in an order.
abbrev pub is_ordered : Kind → Bool
is_ordered Kind.float = false
is_ordered Kind.double = false
is_ordered k = true

numbered_full : (c : ℤ) → some (numbered c) ≢ some []
unfolding numbered
numbered_full c e = cc

not_structured :
    (t : ℕ) (k : Kind) → kind_of t ≡ some k → (t == id_structure || t == id_union) ≡ false
unfolding kind_of
not_structured t k e = ground arith

module _ (sdk : Sdk) (law : Lawful sdk) (src : Source) where
  open sdk use {UaVariant, type_of, identifier_numeric}

  generate_kind-type :
      (k : Kind) (c : ℤ)
      → is_ordered k ≡ true
      → (v : UaVariant) × (generate_kind sdk src k c ≡ ((generate_kind sdk src k c).0, ok v))
        × (type_of v ≡ type_id k)
  unfolding generate_kind
  generate_kind-type Kind.boolean c h = (sdk.set_bool true, refl, (law.bool_kept true).0)
  generate_kind-type Kind.sbyte c h = (_, refl, (law.sbyte_kept _).0)
  generate_kind-type Kind.byte c h = (_, refl, (law.byte_kept _).0)
  generate_kind-type Kind.int16 c h = (_, refl, (law.int16_kept _).0)
  generate_kind-type Kind.uint16 c h = (_, refl, (law.uint16_kept _).0)
  generate_kind-type Kind.int32 c h = (_, refl, (law.int32_kept _).0)
  generate_kind-type Kind.uint32 c h = (_, refl, (law.uint32_kept _).0)
  generate_kind-type Kind.int64 c h = (_, refl, (law.int64_kept _).0)
  generate_kind-type Kind.uint64 c h = (_, refl, (law.uint64_kept _).0)
  generate_kind-type Kind.float c h = absurd (cc)
  generate_kind-type Kind.double c h = absurd (cc)
  generate_kind-type Kind.text c h = (_, refl, (law.string_kept _ (λ e. numbered_full c e)).0)
  generate_kind-type Kind.date_time c h = (_, refl, (law.date_time_kept _).0)
  generate_kind-type Kind.byte_string c h = (_, refl, (law.byte_string_kept _ (λ e. cc)).0)
  generate_kind-type Kind.localized_text c h =
      (_, refl, (law.localized_text_kept _ (λ e. cc) (λ e. numbered_full c e)).0)
  generate_kind-type Kind.enumeration c h = (_, refl, (law.int32_kept _).0)

  -- For a data type of the namespace 0 that the generator knows, other than Float, Double and Duration,
  -- `generate` returns a scalar whose type is that of the data type, with a duration as a double, a
  -- UtcTime as a date and time and an enumeration as an Int32, whatever the counter of the values is,
  -- with one unit of fuel and with any more.
  pub generate-type :
      (n : ℕ) (t : UaNodeId) (c : ℤ) (k : Kind)
      → (ua_namespace t == 0) ≡ true
      → kind_of (identifier_numeric t) ≡ some k
      → is_ordered k ≡ true
      → (v : UaVariant) × (generate sdk src (suc n) t false c
          ≡ ((generate_kind sdk src k c).0, ok (some v)))
        × (type_of v ≡ variant_type (identifier_numeric t))
  unfolding generate get_build_in_type generate_build_in_type is_structured and_then
  generate-type n t c k z e h =
      let (v, f, g) = generate_kind-type k c h in
      (
        v,
        rw (z, not_structured (identifier_numeric t) k e, z, e, f) refl,
        g ∙ type_id-kind_of (identifier_numeric t) k e,
      )
