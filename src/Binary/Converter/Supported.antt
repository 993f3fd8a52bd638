-- ===== src/Binary/Converter/Supported.antt =====
-- Which values convertIo2bin accepts.
use opc_ua_server.Prelude.{◌≡◌, refl, Bool, true, false, ◌&&◌, arith}
use opc_ua_server.Prelude.Result.{Result, ok, throws, undefined, ◌>>=◌, fmap}
use opc_ua_server.Io
use opc_ua_server.Binary.Dto
use opc_ua_server.Binary.Converter.{
  bin_scalar, bin_array_type, io_to_bin, elements_to_bin, fields_to_bin,
}

-- No 64-bit unsigned scalar, no null array, no array of chars, of 64-bit unsigned numbers, of
-- arrays, node ids, node properties or events, and neither node properties nor events.
abbrev pub scalar_supported : Io.Scalar → Bool
scalar_supported (Io.Scalar.ullong n) = false
scalar_supported s = true

abbrev pub type_supported : Io.TypeCode → Bool
type_supported Io.TypeCode.t_char = false
type_supported Io.TypeCode.t_ullong = false
type_supported Io.TypeCode.t_array = false
type_supported Io.TypeCode.t_node_id = false
type_supported Io.TypeCode.t_node_properties = false
type_supported Io.TypeCode.t_event_data = false
type_supported (Io.TypeCode.t_other n) = false
type_supported t = true

unfoldable mutual
  pub supported : Io.Variant → Bool
  supported (Io.Variant.scalar s) = scalar_supported s
  supported (Io.Variant.null_array t) = false
  supported (Io.Variant.array t es) = type_supported t && elements_supported es
  supported (Io.Variant.structure id fs) = fields_supported fs
  supported (Io.Variant.node_id id) = true
  supported (Io.Variant.node_properties h) = false
  supported (Io.Variant.event_data id m s fs) = false

  pub elements_supported : Io.Elements → Bool
  elements_supported Io.Elements.nil = true
  elements_supported (Io.Elements.cons v es) = supported v && elements_supported es

  pub fields_supported : Io.Fields → Bool
  fields_supported Io.Fields.end = true
  fields_supported (Io.Fields.field k v fs) = supported v && fields_supported fs

-- Returns exactly when `b`, and throws otherwise: never undefined.
abbrev pub ReturnsIff : {A : Type 0} → Bool → Result A → Type 0
ReturnsIff b (ok a) = b ≡ true
ReturnsIff b (throws e) = b ≡ false
ReturnsIff b undefined = ⊥

bin_scalar-ReturnsIff : (s : Io.Scalar) → ReturnsIff (scalar_supported s) (bin_scalar s)
unfolding bin_scalar
bin_scalar-ReturnsIff (Io.Scalar.ullong n) = refl
bin_scalar-ReturnsIff s = refl

bin_array_type-ReturnsIff : (t : Io.TypeCode) → ReturnsIff (type_supported t) (bin_array_type t)
unfolding bin_array_type
bin_array_type-ReturnsIff Io.TypeCode.t_char = refl
bin_array_type-ReturnsIff t = refl

-- Two steps in a row, and a step under a constructor.
ReturnsIff-bind :
    {A B C : Type 0} (b c : Bool) (m : Result A) (n : Result B) (f : A → B → C)
    → ReturnsIff b m
    → ReturnsIff c n
    → ReturnsIff (b && c) (m >>= λ x. n >>= λ y. ok (f x y))
ReturnsIff-bind b c (ok x) (ok y) f h k = ground arith
ReturnsIff-bind b c (ok x) (throws e) f h k = ground arith
ReturnsIff-bind b c (throws e) n f h k = ground arith
ReturnsIff-bind b c (ok x) undefined f h k = k
ReturnsIff-bind b c undefined n f h k = h

ReturnsIff-fmap :
    {A B : Type 0} (b : Bool) (m : Result A) (f : A → B) → ReturnsIff b m → ReturnsIff b (fmap f m)
ReturnsIff-fmap b (ok x) f h = h
ReturnsIff-fmap b (throws e) f h = h
ReturnsIff-fmap b undefined f h = h

mutual
  unfolding io_to_bin supported

  variant-ReturnsIff : (v : Io.Variant) → ReturnsIff (supported v) (io_to_bin v)
  variant-ReturnsIff (Io.Variant.scalar s) = bin_scalar-ReturnsIff s
  variant-ReturnsIff (Io.Variant.null_array t) = refl
  variant-ReturnsIff (Io.Variant.array t es) =
      ReturnsIff-bind (type_supported t) (elements_supported es) (bin_array_type t)
        (elements_to_bin es) Dto.Variant.array (bin_array_type-ReturnsIff t)
        (elements-ReturnsIff es)
  variant-ReturnsIff (Io.Variant.structure id fs) =
      ReturnsIff-fmap (fields_supported fs) (fields_to_bin fs) _ (fields-ReturnsIff fs)
  variant-ReturnsIff (Io.Variant.node_id id) = refl
  variant-ReturnsIff (Io.Variant.node_properties h) = refl
  variant-ReturnsIff (Io.Variant.event_data id m s fs) = refl

  elements-ReturnsIff : (es : Io.Elements) → ReturnsIff (elements_supported es) (elements_to_bin es)
  elements-ReturnsIff Io.Elements.nil = refl
  elements-ReturnsIff (Io.Elements.cons v es) =
      ReturnsIff-bind (supported v) (elements_supported es) (io_to_bin v) (elements_to_bin es)
        Dto.Elements.cons (variant-ReturnsIff v) (elements-ReturnsIff es)

  fields-ReturnsIff : (fs : Io.Fields) → ReturnsIff (fields_supported fs) (fields_to_bin fs)
  fields-ReturnsIff Io.Fields.end = refl
  fields-ReturnsIff (Io.Fields.field k v fs) =
      ReturnsIff-bind (supported v) (fields_supported fs) (io_to_bin v) (fields_to_bin fs)
        (Dto.Fields.field k) (variant-ReturnsIff v) (fields-ReturnsIff fs)

-- convertIo2bin returns exactly on the supported values, throws on all others, and is never
-- undefined.
pub io_to_bin-ReturnsIff : (v : Io.Variant) → ReturnsIff (supported v) (io_to_bin v)
io_to_bin-ReturnsIff v = variant-ReturnsIff v
