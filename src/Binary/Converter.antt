-- ===== src/Binary/Converter.antt =====
-- src/provider/binary/messages/ConverterBin2IO.cpp: both directions. The loop over a map's fields
-- writes under the keys that it reads, in their order, so it is a recursion on the fields.
pub mod Supported
pub mod RoundTrip
mod Tests
use opc_ua_server.Prelude.{ℕ, Bool, true, false, Option, none, some, List, [], ◌∷◌, Text, c_str}
use opc_ua_server.Prelude.Int.{
  ℤ, pos, negsuc, to_signed, to_unsigned, long_mod, llong_mod, char_to_schar, schar_to_char,
}
use opc_ua_server.Prelude.Result.{
  Result, ok, throws, undefined, ◌>>=◌, invalid_id_type, unsupported_variant_type,
  unsupported_scalar_type, unsupported_array_type, null_array, fmap,
}
use opc_ua_server.Io
use opc_ua_server.Binary.Dto

-- A negative namespace index stands for the destination's.
namespace_index : ℤ → ℤ → ℤ
namespace_index (pos n) dest = pos n
namespace_index (negsuc n) dest = dest

unfoldable pub node_id_of_param_id : Dto.ParamId → ℤ → Io.NodeId
unfolding namespace_index
node_id_of_param_id (Dto.ParamId.numeric ns id) dest =
    Io.NodeId.numeric (namespace_index ns dest) (to_signed long_mod (pos id))
node_id_of_param_id (Dto.ParamId.string ns s) dest = Io.NodeId.string (namespace_index ns dest) s

unfoldable pub param_id_of_node_id : Io.NodeId → Dto.ParamId
unfolding Dto.create_numeric
param_id_of_node_id (Io.NodeId.numeric ns id) = Dto.create_numeric ns (to_unsigned long_mod id)
param_id_of_node_id (Io.NodeId.string ns s) = Dto.ParamId.string ns s

-- convertBin2ioScalarValue
unfoldable pub io_scalar : Dto.Scalar → Io.Scalar
io_scalar (Dto.Scalar.boolean b) = Io.Scalar.bool b
io_scalar (Dto.Scalar.byte z) = Io.Scalar.schar z
io_scalar (Dto.Scalar.char c) = Io.Scalar.char c
io_scalar (Dto.Scalar.short z) = Io.Scalar.int z
io_scalar (Dto.Scalar.int z) = Io.Scalar.long z
io_scalar (Dto.Scalar.long z) = Io.Scalar.llong z
io_scalar (Dto.Scalar.float f) = Io.Scalar.float f
io_scalar (Dto.Scalar.double d) = Io.Scalar.double d

-- The loop over a char array. An element is cast to `Scalar` and its `charValue` is read, which is
-- defined for a char alone.
unfoldable pub chars_of : Dto.Elements → Result Text
chars_of Dto.Elements.nil = ok []
chars_of (Dto.Elements.cons (Dto.Variant.scalar (Dto.Scalar.char c)) es) =
    fmap (λ cs. c ∷ cs) (chars_of es)
chars_of (Dto.Elements.cons v es) = undefined

-- The loop over a byte array, likewise.
unfoldable pub bytes_of : Dto.Elements → Result Text
bytes_of Dto.Elements.nil = ok []
bytes_of (Dto.Elements.cons (Dto.Variant.scalar (Dto.Scalar.byte z)) es) =
    fmap (λ cs. schar_to_char z ∷ cs) (bytes_of es)
bytes_of (Dto.Elements.cons v es) = undefined

-- The loops that write a text as chars, and as bytes.
unfoldable pub char_elements : Text → Dto.Elements
char_elements [] = Dto.Elements.nil
char_elements (c ∷ s) = Dto.Elements.cons (Dto.Variant.scalar (Dto.Scalar.char c)) (char_elements s)

unfoldable pub byte_elements : Text → Dto.Elements
byte_elements [] = Dto.Elements.nil
byte_elements (c ∷ s) =
    Dto.Elements.cons (Dto.Variant.scalar (Dto.Scalar.byte (char_to_schar c))) (byte_elements s)

-- The inner switch of convertBin2ioArrayValue.
unfoldable pub io_array_type : Dto.TypeCode → Result Io.TypeCode
io_array_type Dto.TypeCode.t_boolean = ok Io.TypeCode.t_bool
io_array_type Dto.TypeCode.t_short = ok Io.TypeCode.t_int
io_array_type Dto.TypeCode.t_int = ok Io.TypeCode.t_long
io_array_type Dto.TypeCode.t_long = ok Io.TypeCode.t_llong
io_array_type Dto.TypeCode.t_float = ok Io.TypeCode.t_float
io_array_type Dto.TypeCode.t_double = ok Io.TypeCode.t_double
io_array_type Dto.TypeCode.t_array = ok Io.TypeCode.t_array
io_array_type Dto.TypeCode.t_struct = ok Io.TypeCode.t_structure
io_array_type t = throws unsupported_array_type

-- A nested array whose element became a scalar takes over the scalar's type.
unfoldable pub refine_type : Io.TypeCode → Io.Variant → Io.TypeCode
unfolding Io.scalar_type
refine_type Io.TypeCode.t_array (Io.Variant.scalar s) = Io.scalar_type s
refine_type t v = t

-- convertBin2io, convertBin2ioArrayValue (its char, byte and other cases) and
-- convertBin2ioStructureValue.
unfoldable mutual
  unfolding node_id_of_param_id io_scalar chars_of bytes_of io_array_type refine_type

  pub bin_to_io : Dto.Variant → ℤ → Result Io.Variant
  bin_to_io (Dto.Variant.scalar s) dest = ok (Io.Variant.scalar (io_scalar s))
  bin_to_io (Dto.Variant.array Dto.TypeCode.t_char es) dest =
      fmap (λ s. Io.Variant.scalar (Io.Scalar.string_value (some (c_str s)))) (chars_of es)
  bin_to_io (Dto.Variant.array Dto.TypeCode.t_byte es) dest =
      fmap (λ s. Io.Variant.scalar (Io.Scalar.byte_string (some s))) (bytes_of es)
  bin_to_io (Dto.Variant.array t es) dest = do
    u ← io_array_type t
    (u', gs) ← elements_to_io es u dest
    ok (Io.Variant.array u' gs)
  bin_to_io (Dto.Variant.struct id fs) dest =
      fmap (λ gs. Io.Variant.structure (node_id_of_param_id id dest) gs) (fields_to_io fs dest)

  pub elements_to_io : Dto.Elements → Io.TypeCode → ℤ → Result (Io.TypeCode × Io.Elements)
  elements_to_io Dto.Elements.nil u dest = ok (u, Io.Elements.nil)
  elements_to_io (Dto.Elements.cons v es) u dest = do
    w ← bin_to_io v dest
    (u', ws) ← elements_to_io es (refine_type u w) dest
    ok (u', Io.Elements.cons w ws)

  pub fields_to_io : Dto.Fields → ℤ → Result Io.Fields
  fields_to_io Dto.Fields.end dest = ok Io.Fields.end
  fields_to_io (Dto.Fields.field k v fs) dest = do
    w ← bin_to_io v dest
    ws ← fields_to_io fs dest
    ok (Io.Fields.field k w ws)

-- A text or byte string as an array, a null one as the empty array.
unfoldable pub chars_array : Option Text → Dto.Variant
chars_array none = Dto.Variant.array Dto.TypeCode.t_char Dto.Elements.nil
chars_array (some s) = Dto.Variant.array Dto.TypeCode.t_char (char_elements s)

unfoldable pub bytes_array : Option Text → Dto.Variant
bytes_array none = Dto.Variant.array Dto.TypeCode.t_byte Dto.Elements.nil
bytes_array (some s) = Dto.Variant.array Dto.TypeCode.t_byte (byte_elements s)

-- convertIo2binScalarValue
unfoldable pub bin_scalar : Io.Scalar → Result Dto.Variant
unfolding chars_array bytes_array
bin_scalar (Io.Scalar.bool b) = ok (Dto.Variant.scalar (Dto.Scalar.boolean b))
bin_scalar (Io.Scalar.schar z) = ok (Dto.Variant.scalar (Dto.Scalar.byte z))
bin_scalar (Io.Scalar.char c) = ok (Dto.Variant.scalar (Dto.Scalar.char c))
bin_scalar (Io.Scalar.int z) = ok (Dto.Variant.scalar (Dto.Scalar.short z))
bin_scalar (Io.Scalar.uint n) =
    ok (Dto.Variant.scalar (Dto.Scalar.int (to_signed long_mod (pos n))))
bin_scalar (Io.Scalar.long z) = ok (Dto.Variant.scalar (Dto.Scalar.int z))
bin_scalar (Io.Scalar.ulong n) =
    ok (Dto.Variant.scalar (Dto.Scalar.long (to_signed llong_mod (pos n))))
bin_scalar (Io.Scalar.llong z) = ok (Dto.Variant.scalar (Dto.Scalar.long z))
bin_scalar (Io.Scalar.ullong n) = throws unsupported_scalar_type
bin_scalar (Io.Scalar.float f) = ok (Dto.Variant.scalar (Dto.Scalar.float f))
bin_scalar (Io.Scalar.double d) = ok (Dto.Variant.scalar (Dto.Scalar.double d))
bin_scalar (Io.Scalar.string_value s) = ok (chars_array s)
bin_scalar (Io.Scalar.byte_string s) = ok (bytes_array s)
bin_scalar (Io.Scalar.localized_text locale text) = ok (chars_array text)

-- The switch of convertIo2binArrayValue.
unfoldable pub bin_array_type : Io.TypeCode → Result Dto.TypeCode
bin_array_type Io.TypeCode.t_bool = ok Dto.TypeCode.t_boolean
bin_array_type Io.TypeCode.t_schar = ok Dto.TypeCode.t_byte
bin_array_type Io.TypeCode.t_int = ok Dto.TypeCode.t_short
bin_array_type Io.TypeCode.t_uint = ok Dto.TypeCode.t_int
bin_array_type Io.TypeCode.t_long = ok Dto.TypeCode.t_int
bin_array_type Io.TypeCode.t_ulong = ok Dto.TypeCode.t_long
bin_array_type Io.TypeCode.t_llong = ok Dto.TypeCode.t_long
bin_array_type Io.TypeCode.t_float = ok Dto.TypeCode.t_float
bin_array_type Io.TypeCode.t_double = ok Dto.TypeCode.t_double
bin_array_type Io.TypeCode.t_string = ok Dto.TypeCode.t_array
bin_array_type Io.TypeCode.t_byte_string = ok Dto.TypeCode.t_array
bin_array_type Io.TypeCode.t_localized_text = ok Dto.TypeCode.t_array
bin_array_type Io.TypeCode.t_variant = ok Dto.TypeCode.t_array
bin_array_type Io.TypeCode.t_structure = ok Dto.TypeCode.t_struct
bin_array_type t = throws unsupported_array_type

-- convertIo2bin, convertIo2binNodeIdValue (the text of the node id, through its C string),
-- convertIo2binArrayValue and convertIo2binStructureValue.
unfoldable mutual
  unfolding param_id_of_node_id bin_scalar bin_array_type chars_array

  pub io_to_bin : Io.Variant → Result Dto.Variant
  io_to_bin (Io.Variant.scalar s) = bin_scalar s
  io_to_bin (Io.Variant.null_array t) = throws null_array
  io_to_bin (Io.Variant.array t es) = do
    u ← bin_array_type t
    fs ← elements_to_bin es
    ok (Dto.Variant.array u fs)
  io_to_bin (Io.Variant.structure id fs) =
      fmap (λ gs. Dto.Variant.struct (param_id_of_node_id id) gs) (fields_to_bin fs)
  io_to_bin (Io.Variant.node_id id) = ok (chars_array (some (Io.node_id_to_string id)))
  io_to_bin (Io.Variant.node_properties h) = throws unsupported_variant_type
  io_to_bin (Io.Variant.event_data id m s fs) = throws unsupported_variant_type

  pub elements_to_bin : Io.Elements → Result Dto.Elements
  elements_to_bin Io.Elements.nil = ok Dto.Elements.nil
  elements_to_bin (Io.Elements.cons v es) = do
    w ← io_to_bin v
    ws ← elements_to_bin es
    ok (Dto.Elements.cons w ws)

  pub fields_to_bin : Io.Fields → Result Dto.Fields
  fields_to_bin Io.Fields.end = ok Dto.Fields.end
  fields_to_bin (Io.Fields.field k v fs) = do
    w ← io_to_bin v
    ws ← fields_to_bin fs
    ok (Dto.Fields.field k w ws)
