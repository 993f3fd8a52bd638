-- ===== src/Ua/ToUa/Elements.antt =====
-- src/sasModelProvider/base/ConverterUa2IO.cpp: node ids, ranges, the build-in type, and the loops over
-- an array's elements.
use Prim.Native.Nat.{bit_xor}
use opc_ua_server.Prelude.{
  ℕ, ◌%◌, Bool, false, not, Option, none, some, List, [], ◌∷◌, Text, bytes, c_str, ltb, ◌==◌,
  if◌then◌else◌,
}
use opc_ua_server.Prelude.Int.{ℤ, pos, negsuc, to_unsigned, short_mod, int_mod}
use opc_ua_server.Prelude.Result.{Result, ok, throws, undefined, ◌>>=◌, no_base_type, fmap}
use opc_ua_server.Io
use opc_ua_server.Ua.Sdk.{
  Sdk, UaNodeId, ua_namespace, StructureField, StructureDefinition, LocalizedText, id_boolean,
  id_sbyte, id_byte, id_int16, id_uint16, id_int32, id_uint32, id_int64, id_uint64, id_float,
  id_double, id_string, id_date_time, id_byte_string, id_localized_text, id_enumeration,
  id_duration, id_utc_time,
}
use opc_ua_server.Ua.Sdk

-- convertIo2ua of a node id. `getNumeric` is a long, the namespace index an int; the SDK takes an
-- unsigned 32-bit number and an unsigned 16-bit index.
unfoldable pub ua_node_id : Io.NodeId → UaNodeId
ua_node_id (Io.NodeId.numeric ns id) =
    Sdk.UaNodeId.numeric (to_unsigned short_mod ns) (to_unsigned int_mod id)
ua_node_id (Io.NodeId.string ns s) = Sdk.UaNodeId.string (to_unsigned short_mod ns) (c_str s)

-- `v >= 0 && v < 2 ^ k`. In C++ `^` is exclusive or and binds less than `<`, so the second operand
-- is `(v < 2) ^ k`, true unless it is 0.
abbrev less_than_two : ℤ → ℕ
less_than_two (pos n) = if ltb n 2 then 1 else 0
less_than_two (negsuc n) = 1

unfoldable pub in_range : ℤ → ℕ → Bool
in_range (pos n) k = not (bit_xor (less_than_two (pos n)) k == 0)
in_range (negsuc n) k = false

-- The locale that a plain text gets.
abbrev pub english : Text
english = bytes "en"

unfoldable pub map_c_str : Option Text → Option Text
unfolding c_str
map_c_str none = none
map_c_str (some s) = some (c_str s)

-- ConverterUa2IO::ConverterCallback
pub record Callback : Type 0 where
  pub get_structure_definition : UaNodeId → Result StructureDefinition
  pub get_super_types : UaNodeId → Result (Option (List UaNodeId))

-- `back()` of the super types.
unfoldable pub last_of : List UaNodeId → Result UaNodeId
last_of [] = throws no_base_type
last_of (t ∷ []) = ok t
last_of (t ∷ u ∷ ts) = last_of (u ∷ ts)

unfoldable pub base_of : Option (List UaNodeId) → Result UaNodeId
unfolding last_of
base_of none = throws no_base_type
base_of (some ts) = last_of ts

-- getBuildInType
unfoldable pub build_in_type : Callback → UaNodeId → Result UaNodeId
unfolding base_of ua_namespace
build_in_type cb t = if ua_namespace t == 0 then ok t else cb.get_super_types t >>= base_of

-- An element is cast to `Scalar`, and the member is read that the array's type names.
unfoldable pub longs_of : Io.Elements → Result (List ℤ)
longs_of Io.Elements.nil = ok []
longs_of (Io.Elements.cons (Io.Variant.scalar (Io.Scalar.long z)) es) =
    fmap (λ zs. z ∷ zs) (longs_of es)
longs_of (Io.Elements.cons v es) = undefined

unfoldable pub ulongs_of : Io.Elements → Result (List ℕ)
ulongs_of Io.Elements.nil = ok []
ulongs_of (Io.Elements.cons (Io.Variant.scalar (Io.Scalar.ulong n)) es) =
    fmap (λ ns. n % int_mod ∷ ns) (ulongs_of es)
ulongs_of (Io.Elements.cons v es) = undefined

unfoldable pub llongs_of : Io.Elements → Result (List ℕ)
llongs_of Io.Elements.nil = ok []
llongs_of (Io.Elements.cons (Io.Variant.scalar (Io.Scalar.llong z)) es) =
    fmap (λ ns. to_unsigned int_mod z ∷ ns) (llongs_of es)
llongs_of (Io.Elements.cons v es) = undefined

-- `getString()->c_str()`: a null string is dereferenced.
unfoldable pub texts_of : Io.Elements → Result (List Text)
unfolding c_str
texts_of Io.Elements.nil = ok []
texts_of (Io.Elements.cons (Io.Variant.scalar (Io.Scalar.string_value (some t))) es) =
    fmap (λ ts. c_str t ∷ ts) (texts_of es)
texts_of (Io.Elements.cons v es) = undefined

unfoldable pub localized_texts_of : Io.Elements → Result (List LocalizedText)
unfolding map_c_str
localized_texts_of Io.Elements.nil = ok []
localized_texts_of (Io.Elements.cons (Io.Variant.scalar (Io.Scalar.localized_text l t)) es) =
    fmap (λ ts. (map_c_str l, map_c_str t) ∷ ts) (localized_texts_of es)
localized_texts_of (Io.Elements.cons v es) = undefined

unfoldable pub map_list {ℓ κ} : {A : Type ℓ} {B : Type κ} → (A → B) → List A → List B
map_list f [] = []
map_list f (x ∷ xs) = f x ∷ map_list f xs
