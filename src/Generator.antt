-- ===== src/Generator.antt =====
-- src/sasModelProvider/base/generator/DataGenerator.cpp: the generation of a value for a data type. A method
-- leaves the counter of the values also when it throws. The recursion over the fields of structures is on
-- fuel, one unit for a call of `generate`. The data generator's events and instances are left out.
pub mod Types
mod Tests
use opc_ua_server.Prelude.{
  ℕ, zero, suc, ◌+◌, Bool, true, false, Option, none, some, List, [], ◌∷◌, ◌++◌, if◌then◌else◌,
  ◌==◌, ◌||◌, Text, bytes, show_int,
}
use opc_ua_server.Prelude.Int.{
  ℤ, pos, negsuc, to_unsigned, to_signed, char_mod, short_mod, int_mod, llong_mod,
}
use opc_ua_server.Prelude.Result.{
  Error, Result, ok, throws, undefined, ◌>>=◌, fmap, too_deep, no_base_type, no_generator,
}
use opc_ua_server.Ua.Sdk.{
  Sdk, UaNodeId, StructureDefinition, StructureField, ua_namespace, id_boolean, id_sbyte, id_byte,
  id_int16, id_uint16, id_int32, id_uint32, id_int64, id_uint64, id_float, id_double, id_string,
  id_date_time, id_byte_string, id_localized_text, id_structure, id_union, id_enumeration,
  id_duration, id_utc_time,
}
use opc_ua_server.Ua.ToUa.{last_of}

-- What the generator calls: the node browser, and the test of a field for an array; and the time.
pub record Source : Type 0 where
  pub get_super_types : UaNodeId → Result (Option (List UaNodeId))
  pub get_structure_definition : UaNodeId → StructureDefinition
  pub is_array_field : StructureField → Bool
  pub now : ℤ

-- The cases of the switch of generateBuildInType.
pub data Kind : Type 0 where
  boolean sbyte byte int16 uint16 int32 uint32 int64 uint64 float double : Kind
  text date_time byte_string localized_text enumeration : Kind

unfoldable pub kind_of : ℕ → Option Kind
kind_of t =
    if t == id_boolean
    then some Kind.boolean
    else if t == id_sbyte
    then some Kind.sbyte
    else if t == id_byte
    then some Kind.byte
    else if t == id_int16
    then some Kind.int16
    else if t == id_uint16
    then some Kind.uint16
    else if t == id_int32
    then some Kind.int32
    else if t == id_uint32
    then some Kind.uint32
    else if t == id_int64
    then some Kind.int64
    else if t == id_uint64
    then some Kind.uint64
    else if t == id_float
    then some Kind.float
    else if t == id_double || t == id_duration
    then some Kind.double
    else if t == id_string
    then some Kind.text
    else if t == id_date_time || t == id_utc_time
    then some Kind.date_time
    else if t == id_byte_string
    then some Kind.byte_string
    else if t == id_localized_text
    then some Kind.localized_text
    else if t == id_enumeration
    then some Kind.enumeration
    else none

-- valueCounter++ on an OpcUa_Int16.
unfoldable pub next : ℤ → ℤ
next (pos n) = to_signed short_mod (pos (suc n))
next (negsuc zero) = pos 0
next (negsuc (suc n)) = negsuc n

-- The next statement, unless there was an exception.
unfoldable pub and_then {ℓ κ} :
    {A : Type ℓ} {B : Type κ} → ℤ × Result A → (ℤ → A → ℤ × Result B) → ℤ × Result B
and_then (c, ok x) after = after c x
and_then (c, throws e) after = (c, throws e)
and_then (c, undefined) after = (c, undefined)

unfoldable pub numbered : ℤ → Text
numbered c = bytes "string" ++ show_int c

module _ (sdk : Sdk) (src : Source) where
  open sdk use {
    UaVariant, identifier_numeric, type_of, set_bool, set_sbyte, set_byte, set_int16, set_uint16,
    set_int32, set_uint32, set_int64, set_uint64, set_date_time, set_string, set_byte_string,
    set_localized_text, set_extension_objects, set_int32_array, set_uint32_array,
    set_localized_text_array, set_structure, set_union, to_int32, to_uint32, to_localized_text,
  }

  -- For a float or a double the counter is read and incremented in one expression, without an order.
  unfoldable pub generate_kind : Kind → ℤ → ℤ × Result UaVariant
  unfolding next numbered
  generate_kind Kind.boolean c = (c, ok (set_bool true))
  generate_kind Kind.sbyte c = (next c, ok (set_sbyte (to_signed char_mod c)))
  generate_kind Kind.byte c = (next c, ok (set_byte (to_unsigned char_mod c)))
  generate_kind Kind.int16 c = (next c, ok (set_int16 c))
  generate_kind Kind.uint16 c = (next c, ok (set_uint16 (to_unsigned short_mod c)))
  generate_kind Kind.int32 c = (next c, ok (set_int32 c))
  generate_kind Kind.uint32 c = (next c, ok (set_uint32 (to_unsigned int_mod c)))
  generate_kind Kind.int64 c = (next c, ok (set_int64 c))
  generate_kind Kind.uint64 c = (next c, ok (set_uint64 (to_unsigned llong_mod c)))
  generate_kind Kind.float c = (c, undefined)
  generate_kind Kind.double c = (c, undefined)
  generate_kind Kind.text c = (next c, ok (set_string (some (numbered c))))
  generate_kind Kind.date_time c = (c, ok (set_date_time src.now))
  generate_kind Kind.byte_string c = (
    next (next c),
    ok (set_byte_string (some (to_unsigned char_mod c ∷ to_unsigned char_mod (next c) ∷ []))),
  )
  generate_kind Kind.localized_text c =
      (next c, ok (set_localized_text (some (bytes "en"), some (numbered c))))
  generate_kind Kind.enumeration c = (c, ok (set_int32 (pos 0)))

  -- Null for a type outside of the namespace 0.
  unfoldable pub generate_build_in_type : UaNodeId → ℤ → ℤ × Result (Option UaVariant)
  unfolding generate_kind kind_of and_then
  generate_build_in_type t c =
      if ua_namespace t == 0
      then elim (kind_of (identifier_numeric t)) [
        | none ↦ (c, throws no_generator)
        | some k ↦ and_then (generate_kind k c) (λ d v. (d, ok (some v)))
      ]
      else (c, ok none)

  unfoldable pub get_build_in_type : UaNodeId → Result UaNodeId
  unfolding last_of
  get_build_in_type t =
      if ua_namespace t == 0
      then ok t
      else src.get_super_types t >>= λ o. elim o [
        | none ↦ throws no_base_type
        | some ts ↦ last_of ts
      ]

  -- A null pointer is dereferenced.
  unfoldable pub dereference : ℤ → Option UaVariant → ℤ × Result UaVariant
  dereference c none = (c, undefined)
  dereference c (some v) = (c, ok v)

  -- The value that the getter of the type gives.
  unfoldable pub read {ℓ} : {A : Type ℓ} → Option A → Result A
  read none = undefined
  read (some x) = ok x

  unfoldable pub convert_array : UaVariant → Result UaVariant
  unfolding read
  convert_array v =
      if type_of v == id_structure
      then ok (set_extension_objects (v ∷ []))
      else if type_of v == id_int32
      then fmap (λ z. set_int32_array (z ∷ [])) (read (to_int32 v))
      else if type_of v == id_uint32
      then fmap (λ n. set_uint32_array (n ∷ [])) (read (to_uint32 v))
      else if type_of v == id_localized_text
      then fmap (λ t. set_localized_text_array (t ∷ [])) (read (to_localized_text v))
      else throws no_generator

  -- An array of one element.
  unfoldable pub generate_array :
      (ℤ → ℤ × Result (Option UaVariant)) → ℤ → ℤ × Result (Option UaVariant)
  unfolding and_then dereference convert_array
  generate_array element c =
      and_then (and_then (element c) dereference) (λ d v. (d, fmap some (convert_array v)))

  -- The fields of a structure; an optional field is left out after an exception.
  unfoldable pub generate_fields :
      (StructureField → ℤ → ℤ × Result UaVariant)
      → List StructureField
      → ℤ
      → ℤ × Result (List (Text × UaVariant))
  unfolding and_then
  generate_fields field [] c = (c, ok [])
  generate_fields field (f ∷ fs) c = elim (field f c).1 [
    | undefined ↦ ((field f c).0, undefined)
    | throws e ↦
        if f.is_optional then generate_fields field fs (field f c).0 else ((field f c).0, throws e)
    | ok v ↦ and_then (generate_fields field fs (field f c).0) (λ d vs. (d, ok ((f.name, v) ∷ vs)))
  ]

  -- The first field of a union that has a value; the first exception if there is none.
  unfoldable pub generate_choice :
      (StructureField → ℤ → ℤ × Result UaVariant)
      → Option Error
      → List StructureField
      → ℤ
      → ℤ × Result (Option (Text × UaVariant))
  generate_choice field none [] c = (c, ok none)
  generate_choice field (some e) [] c = (c, throws e)
  generate_choice field first (f ∷ fs) c = elim (field f c).1 [
    | undefined ↦ ((field f c).0, undefined)
    | throws e ↦
        generate_choice field (elim first [ none ↦ some e | some w ↦ some w ]) fs (field f c).0
    | ok v ↦ ((field f c).0, ok (some (f.name, v)))
  ]

  unfoldable pub generate_structure :
      (StructureField → ℤ → ℤ × Result UaVariant) → UaNodeId → ℤ → ℤ × Result (Option UaVariant)
  unfolding and_then generate_fields generate_choice
  generate_structure field t c =
      let d = src.get_structure_definition t in
      if d.is_union
      then and_then (generate_choice field none d.children c)
          (λ e o. (e, ok (some (set_union d o))))
      else and_then (generate_fields field d.children c)
          (λ e fs. (e, ok (some (set_structure d fs))))

  unfoldable pub is_structured : UaNodeId → Bool
  is_structured t = identifier_numeric t == id_structure || identifier_numeric t == id_union

  unfoldable pub generate : ℕ → UaNodeId → Bool → ℤ → ℤ × Result (Option UaVariant)
  unfolding generate_array generate_structure generate_build_in_type get_build_in_type is_structured
      and_then dereference
  generate zero t is_array c = (c, throws too_deep)
  generate (suc n) t is_array c =
      let again = generate n in
      if is_array
      then generate_array (again t false) c
      else and_then (c, get_build_in_type t)
          (λ d b.
            if is_structured b
            then generate_structure
                (λ f e. and_then (again f.type_id (src.is_array_field f) e) dereference) t d
            else generate_build_in_type b d)
