-- ===== src/Binary/Dto.antt =====
-- src/provider/binary/messages/dto: the values of the binary protocol.
use opc_ua_server.Prelude.{ℕ, Bool, Text}
use opc_ua_server.Prelude.Int.{ℤ, pos, to_signed, to_unsigned, long_mod}

-- ParamId.cpp: the namespace index, and a number or a text.
pub data ParamId : Type 0 where
  numeric : ℤ → ℕ → ParamId
  string : ℤ → Text → ParamId

-- The constructor takes an `unsigned long` through `setNumeric(long)` to an `unsigned long`.
unfoldable pub create_numeric : ℤ → ℕ → ParamId
create_numeric ns id = numeric ns (to_unsigned long_mod (to_signed long_mod (pos id)))

-- Scalar.cpp: the tagged union. The member names are the protocol's, the C++ types wider:
-- `short` is an `int`, `int` a `long`, `long` a `long long`.
pub data Scalar : Type 0 where
  boolean : Bool → Scalar
  char : ℕ → Scalar
  byte : ℤ → Scalar
  short : ℤ → Scalar
  int : ℤ → Scalar
  long : ℤ → Scalar
  float : ℕ → Scalar
  double : ℕ → Scalar

-- The values of `Scalar::Type` and `Variant::Type`, which an array's type mixes, and any other.
pub data TypeCode : Type 0 where
  t_boolean t_char t_byte t_short t_int t_long t_float t_double t_array t_struct : TypeCode
  t_other : ℕ → TypeCode

mutual
  pub data Variant : Type 0 where
    scalar : Scalar → Variant
    array : TypeCode → Elements → Variant
    struct : ParamId → Fields → Variant

  pub data Elements : Type 0 where
    nil : Elements
    cons : Variant → Elements → Elements

  pub data Fields : Type 0 where
    end : Fields
    field : Text → Variant → Fields → Fields
