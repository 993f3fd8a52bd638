-- ===== src/Ua/ToUa/Guards.antt =====
-- The guards of ConverterUa2IO::convertIoScalar2ua before a conversion to UInt16 or UInt32.
use opc_ua_server.Prelude.{ℕ, ◌%◌, ◌≡◌, refl, true, arith}
use opc_ua_server.Prelude.Int.{pos, negsuc, short_mod, int_mod}
use opc_ua_server.Prelude.Result.{ok, throws, out_of_range}
use opc_ua_server.Ua.Sdk.{Sdk, id_uint16, id_uint32}
use opc_ua_server.Ua.ToUa.Elements.{in_range}
use opc_ua_server.Ua.ToUa.Numbers.{ua_long, ua_llong}

in_range-15 : (n : ℕ) → in_range (pos n) 15 ≡ true
unfolding in_range
in_range-15 n = ground arith

in_range-31 : (n : ℕ) → in_range (pos n) 31 ≡ true
unfolding in_range
in_range-31 n = ground arith

-- The conversions of a `LONG` to UInt16 and of a `LLONG` to UInt32 refuse the negative numbers and
-- no other: each number from 0 on is written modulo 2 ^ 16 or 2 ^ 32, however large it is.
pub guards_without_upper_bound :
    (sdk : Sdk) (n : ℕ)
    → (ua_long sdk (pos n) id_uint16 ≡ ok (sdk.set_uint16 (n % short_mod)))
      × (ua_llong sdk (pos n) id_uint32 ≡ ok (sdk.set_uint32 (n % int_mod)))
      × (ua_long sdk (negsuc n) id_uint16 ≡ throws out_of_range)
      × (ua_llong sdk (negsuc n) id_uint32 ≡ throws out_of_range)
unfolding ua_long ua_llong in_range
guards_without_upper_bound sdk n = (rw in_range-15 refl, rw in_range-31 refl, refl, refl)
