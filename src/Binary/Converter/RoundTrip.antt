-- ===== src/Binary/Converter/RoundTrip.antt =====
-- A protocol value that goes to the server and comes back.
use opc_ua_server.Prelude.{ℕ, ◌<◌, ◌≡◌, ◌≢◌, refl, ap, [], ◌∷◌, some, Text, c_str, arith}
use opc_ua_server.Prelude.Int.{
  ℤ, pos, negsuc, InSigned, long_mod, to_signed, to_unsigned, schar_to_char,
  char_to_schar-schar_to_char,
}
use opc_ua_server.Prelude.Result.{ok, ◌>>=◌}
use opc_ua_server.Io
use opc_ua_server.Binary.Dto
use opc_ua_server.Binary.Dto.{create_numeric}
use opc_ua_server.Binary.Converter.{
  node_id_of_param_id, param_id_of_node_id, io_scalar, chars_of, bytes_of, char_elements,
  byte_elements, refine_type, bin_array_type, bin_scalar, bin_to_io, elements_to_io, fields_to_io,
  io_to_bin, elements_to_bin, fields_to_bin,
}

-- An array of chars other than NUL, and an array of signed bytes.
abbrev pub IsChars : Dto.Elements → Type 0
IsChars Dto.Elements.nil = Unit {0}
IsChars (Dto.Elements.cons (Dto.Variant.scalar (Dto.Scalar.char c)) es) = (c ≢ 0) × IsChars es
IsChars (Dto.Elements.cons v es) = ⊥

abbrev pub IsBytes : Dto.Elements → Type 0
IsBytes Dto.Elements.nil = Unit {0}
IsBytes (Dto.Elements.cons (Dto.Variant.scalar (Dto.Scalar.byte z)) es) =
    InSigned 128 z × IsBytes es
IsBytes (Dto.Elements.cons v es) = ⊥

-- The first element is an array of chars or bytes.
abbrev pub StartsWithText : Dto.Elements → Type 0
StartsWithText (Dto.Elements.cons (Dto.Variant.array Dto.TypeCode.t_char cs) es) = Unit {0}
StartsWithText (Dto.Elements.cons (Dto.Variant.array Dto.TypeCode.t_byte cs) es) = Unit {0}
StartsWithText es = ⊥

-- An id with a namespace of its own, and a number that fits.
abbrev pub IsAbsolute : Dto.ParamId → Type 0
IsAbsolute (Dto.ParamId.numeric (pos n) id) = id < long_mod
IsAbsolute (Dto.ParamId.string (pos n) s) = Unit {0}
IsAbsolute id = ⊥

-- What the protocol sends: texts without NUL, known array types, an array of arrays begins with a
-- text, structures have absolute ids.
abbrev mutual
  pub WellFormed : Dto.Variant → Type 0
  WellFormed (Dto.Variant.scalar s) = Unit {0}
  WellFormed (Dto.Variant.array Dto.TypeCode.t_char es) = IsChars es
  WellFormed (Dto.Variant.array Dto.TypeCode.t_byte es) = IsBytes es
  WellFormed (Dto.Variant.array Dto.TypeCode.t_array es) = StartsWithText es × ElementsWellFormed es
  WellFormed (Dto.Variant.array (Dto.TypeCode.t_other n) es) = ⊥
  WellFormed (Dto.Variant.array t es) = ElementsWellFormed es
  WellFormed (Dto.Variant.struct id fs) = IsAbsolute id × FieldsWellFormed fs

  pub ElementsWellFormed : Dto.Elements → Type 0
  ElementsWellFormed Dto.Elements.nil = Unit {0}
  ElementsWellFormed (Dto.Elements.cons v es) = WellFormed v × ElementsWellFormed es

  pub FieldsWellFormed : Dto.Fields → Type 0
  FieldsWellFormed Dto.Fields.end = Unit {0}
  FieldsWellFormed (Dto.Fields.field k v fs) = WellFormed v × FieldsWellFormed fs

long_trip :
    (n : ℕ)
    → n < long_mod
    → to_unsigned long_mod
        (to_signed long_mod (pos (to_unsigned long_mod (to_signed long_mod (pos n)))))
      ≡ n
long_trip n h = ground arith

-- An id with a namespace index that is not negative, whose number, if it has one, is below 2 ^ 32, is
-- the same after the way to a node id, for any destination namespace, and back.
pub param_id-node_id :
    (id : Dto.ParamId) (dest : ℤ)
    → IsAbsolute id
    → param_id_of_node_id (node_id_of_param_id id dest) ≡ id
unfolding param_id_of_node_id node_id_of_param_id create_numeric
param_id-node_id (Dto.ParamId.numeric (pos n) id) dest h =
    ap (Dto.ParamId.numeric (pos n)) (long_trip id h)
param_id-node_id (Dto.ParamId.string (pos n) s) dest h = refl
param_id-node_id (Dto.ParamId.numeric (negsuc n) id) dest h = absurd h
param_id-node_id (Dto.ParamId.string (negsuc n) s) dest h = absurd h

-- A scalar comes back as it was.
bin_scalar-io_scalar : (s : Dto.Scalar) → bin_scalar (io_scalar s) ≡ ok (Dto.Variant.scalar s)
unfolding bin_scalar io_scalar
bin_scalar-io_scalar (Dto.Scalar.boolean b) = refl
bin_scalar-io_scalar s = refl

chars_trip :
    (es : Dto.Elements)
    → IsChars es
    → (s : Text) × (chars_of es ≡ ok s) × (char_elements (c_str s) ≡ es)
unfolding chars_of char_elements c_str
chars_trip Dto.Elements.nil h = ([], refl, refl)
chars_trip (Dto.Elements.cons (Dto.Variant.scalar (Dto.Scalar.char c)) es) h =
    let (s, e, k) = chars_trip es h.1 in (c ∷ s, ground arith, ground arith)
chars_trip (Dto.Elements.cons v es) h = absurd h

bytes_trip :
    (es : Dto.Elements) → IsBytes es → (s : Text) × (bytes_of es ≡ ok s) × (byte_elements s ≡ es)
unfolding bytes_of byte_elements
bytes_trip Dto.Elements.nil h = ([], refl, refl)
bytes_trip (Dto.Elements.cons (Dto.Variant.scalar (Dto.Scalar.byte z)) es) h =
    let (s, e, k) = bytes_trip es h.1 in
    (schar_to_char z ∷ s, rw e, rw (k, char_to_schar-schar_to_char z h.0))
bytes_trip (Dto.Elements.cons v es) h = absurd h

-- What a round trip shows: the value converts, and its image converts back to it.
abbrev pub Trip : Dto.Variant → ℤ → Type 0
Trip v dest = (w : Io.Variant) × (bin_to_io v dest ≡ ok w) × (io_to_bin w ≡ ok v)

ElementsTrip : Dto.Elements → Io.TypeCode → ℤ → Type 0
ElementsTrip es u dest =
    (ws : Io.Elements) × (elements_to_io es u dest ≡ ok (u, ws)) × (elements_to_bin ws ≡ ok es)

FieldsTrip : Dto.Fields → ℤ → Type 0
FieldsTrip fs dest = (ws : Io.Fields) × (fields_to_io fs dest ≡ ok ws) × (fields_to_bin ws ≡ ok fs)

-- Only the type of an array of arrays changes.
refine_type_fixed :
    (u : Io.TypeCode) (w : Io.Variant) → u ≢ Io.TypeCode.t_array → refine_type u w ≡ u
unfolding refine_type
refine_type_fixed Io.TypeCode.t_array w h = absurd (h refl)
refine_type_fixed Io.TypeCode.t_bool w h = refl
refine_type_fixed u w h = refl

-- The array that the loop builds, and its way back.
array_trip :
    (t : Dto.TypeCode) (u : Io.TypeCode) (es : Dto.Elements) (dest : ℤ)
    → bin_array_type u ≡ ok t
    → ElementsTrip es u dest
    → (w : Io.Variant) × ((elements_to_io es u dest >>= λ r. ok (Io.Variant.array r.0 r.1)) ≡ ok w)
      × (io_to_bin w ≡ ok (Dto.Variant.array t es))
unfolding ElementsTrip io_to_bin
array_trip t u es dest f (ws, a, b) = (Io.Variant.array u ws, rw a, rw (f, b))

-- The same for an array of arrays after its first text, which fixes the type `u`.
nested-Trip :
    (v : Dto.Variant) (u : Io.TypeCode) (s : Io.Scalar) (es : Dto.Elements) (dest : ℤ)
    → bin_to_io v dest ≡ ok (Io.Variant.scalar s)
    → io_to_bin (Io.Variant.scalar s) ≡ ok v
    → Io.scalar_type s ≡ u
    → bin_array_type u ≡ ok Dto.TypeCode.t_array
    → ElementsTrip es u dest
    → Trip (Dto.Variant.array Dto.TypeCode.t_array (Dto.Elements.cons v es)) dest
unfolding ElementsTrip bin_to_io io_to_bin
nested-Trip v u s es dest e k c f (ws, a, b) =
    (Io.Variant.array u (Io.Elements.cons (Io.Variant.scalar s) ws), rw (e, c, a), rw (f, k, b))

chars_array_trip :
    (es : Dto.Elements) (dest : ℤ)
    → IsChars es
    → (s : Text) × (bin_to_io (Dto.Variant.array Dto.TypeCode.t_char es) dest
        ≡ ok (Io.Variant.scalar (Io.Scalar.string_value (some s))))
      × (io_to_bin (Io.Variant.scalar (Io.Scalar.string_value (some s)))
          ≡ ok (Dto.Variant.array Dto.TypeCode.t_char es))
unfolding bin_to_io io_to_bin
chars_array_trip es dest h = let (s, e, k) = chars_trip es h in (c_str s, rw e, rw k)

bytes_array_trip :
    (es : Dto.Elements) (dest : ℤ)
    → IsBytes es
    → (s : Text) × (bin_to_io (Dto.Variant.array Dto.TypeCode.t_byte es) dest
        ≡ ok (Io.Variant.scalar (Io.Scalar.byte_string (some s))))
      × (io_to_bin (Io.Variant.scalar (Io.Scalar.byte_string (some s)))
          ≡ ok (Dto.Variant.array Dto.TypeCode.t_byte es))
unfolding bin_to_io io_to_bin
bytes_array_trip es dest h = let (s, e, k) = bytes_trip es h in (s, rw e, rw k)

mutual
  unfolding bin_to_io io_to_bin ElementsTrip FieldsTrip

  variant-Trip : (v : Dto.Variant) (dest : ℤ) → WellFormed v → Trip v dest
  variant-Trip (Dto.Variant.scalar s) dest h =
      (Io.Variant.scalar (io_scalar s), refl, bin_scalar-io_scalar s)
  variant-Trip (Dto.Variant.array Dto.TypeCode.t_char es) dest h =
      let (s, e, k) = chars_array_trip es dest h in
      (Io.Variant.scalar (Io.Scalar.string_value (some s)), e, k)
  variant-Trip (Dto.Variant.array Dto.TypeCode.t_byte es) dest h =
      let (s, e, k) = bytes_array_trip es dest h in
      (Io.Variant.scalar (Io.Scalar.byte_string (some s)), e, k)
  variant-Trip (Dto.Variant.array Dto.TypeCode.t_array Dto.Elements.nil) dest h = absurd h.0
  variant-Trip
        (Dto.Variant.array Dto.TypeCode.t_array
          (Dto.Elements.cons (Dto.Variant.array Dto.TypeCode.t_char cs) es))
        dest h =
      let (s, e, k) = chars_array_trip cs dest h.1.0 in
      nested-Trip (Dto.Variant.array Dto.TypeCode.t_char cs) Io.TypeCode.t_string
        (Io.Scalar.string_value (some s)) es dest e k refl refl
        (elements_trip es Io.TypeCode.t_string dest (λ q. cc) h.1.1)
  variant-Trip
        (Dto.Variant.array Dto.TypeCode.t_array
          (Dto.Elements.cons (Dto.Variant.array Dto.TypeCode.t_byte cs) es))
        dest h =
      let (s, e, k) = bytes_array_trip cs dest h.1.0 in
      nested-Trip (Dto.Variant.array Dto.TypeCode.t_byte cs) Io.TypeCode.t_byte_string
        (Io.Scalar.byte_string (some s)) es dest e k refl refl
        (elements_trip es Io.TypeCode.t_byte_string dest (λ q. cc) h.1.1)
  variant-Trip (Dto.Variant.array Dto.TypeCode.t_array es) dest h = absurd h.0
  variant-Trip (Dto.Variant.array Dto.TypeCode.t_boolean es) dest h =
      array_trip Dto.TypeCode.t_boolean Io.TypeCode.t_bool es dest refl
        (elements_trip es Io.TypeCode.t_bool dest (λ q. cc) h)
  variant-Trip (Dto.Variant.array Dto.TypeCode.t_short es) dest h =
      array_trip Dto.TypeCode.t_short Io.TypeCode.t_int es dest refl
        (elements_trip es Io.TypeCode.t_int dest (λ q. cc) h)
  variant-Trip (Dto.Variant.array Dto.TypeCode.t_int es) dest h =
      array_trip Dto.TypeCode.t_int Io.TypeCode.t_long es dest refl
        (elements_trip es Io.TypeCode.t_long dest (λ q. cc) h)
  variant-Trip (Dto.Variant.array Dto.TypeCode.t_long es) dest h =
      array_trip Dto.TypeCode.t_long Io.TypeCode.t_llong es dest refl
        (elements_trip es Io.TypeCode.t_llong dest (λ q. cc) h)
  variant-Trip (Dto.Variant.array Dto.TypeCode.t_float es) dest h =
      array_trip Dto.TypeCode.t_float Io.TypeCode.t_float es dest refl
        (elements_trip es Io.TypeCode.t_float dest (λ q. cc) h)
  variant-Trip (Dto.Variant.array Dto.TypeCode.t_double es) dest h =
      array_trip Dto.TypeCode.t_double Io.TypeCode.t_double es dest refl
        (elements_trip es Io.TypeCode.t_double dest (λ q. cc) h)
  variant-Trip (Dto.Variant.array Dto.TypeCode.t_struct es) dest h =
      array_trip Dto.TypeCode.t_struct Io.TypeCode.t_structure es dest refl
        (elements_trip es Io.TypeCode.t_structure dest (λ q. cc) h)
  variant-Trip (Dto.Variant.array (Dto.TypeCode.t_other n) es) dest h = absurd h
  variant-Trip (Dto.Variant.struct id fs) dest h =
      let (ws, a, b) = fields_trip fs dest h.1 in
      (
        Io.Variant.structure (node_id_of_param_id id dest) ws,
        rw a,
        rw (b, param_id-node_id id dest h.0),
      )

  elements_trip :
      (es : Dto.Elements) (u : Io.TypeCode) (dest : ℤ)
      → u ≢ Io.TypeCode.t_array
      → ElementsWellFormed es
      → ElementsTrip es u dest
  elements_trip Dto.Elements.nil u dest ne h = (Io.Elements.nil, refl, refl)
  elements_trip (Dto.Elements.cons v es) u dest ne h =
      let (w, a, b) = variant-Trip v dest h.0 in
      let (ws, c, d) = elements_trip es u dest ne h.1 in
      (Io.Elements.cons w ws, rw (a, refine_type_fixed u w ne, c), rw (b, d))

  fields_trip : (fs : Dto.Fields) (dest : ℤ) → FieldsWellFormed fs → FieldsTrip fs dest
  fields_trip Dto.Fields.end dest h = (Io.Fields.end, refl, refl)
  fields_trip (Dto.Fields.field k v fs) dest h =
      let (w, a, b) = variant-Trip v dest h.0 in
      let (ws, c, d) = fields_trip fs dest h.1 in (Io.Fields.field k w ws, rw (a, c), rw (b, d))

-- A well-formed protocol value converts to a server value, for any destination namespace, which
-- converts back to the protocol value.
pub bin_to_io-io_to_bin : (v : Dto.Variant) (dest : ℤ) → WellFormed v → Trip v dest
bin_to_io-io_to_bin v dest h = variant-Trip v dest h
