-- ===== src/Generator/Tests.antt =====
-- Values that the data generator makes for an SDK in memory.
use opc_ua_server.Prelude.{true, false, some, [], ◌∷◌, ◌≡◌, refl}
use opc_ua_server.Prelude.Int.{pos, negsuc}
use opc_ua_server.Prelude.Result.{ok, throws, no_generator}
use opc_ua_server.Ua.Sdk.{numeric, ua_namespace, id_date_time}
use opc_ua_server.Ua.Memory.{Value, memory, memory-Lawful}
use opc_ua_server.Generator.{Source, Kind, next, kind_of, generate, generate_kind}
use opc_ua_server.Generator.Types.{generate-type}

abbrev source : Source
source = record {
  get_super_types = λ t. ok (some (numeric 0 6 ∷ []));
  get_structure_definition = λ t. record { is_union = false; children = [] };
  is_array_field = λ f. false;
  now = pos 5;
}

-- The counter goes on at the smallest number, and a Byte has its last eight bits.
wrapped : next (pos 32767) ≡ negsuc 32767
unfolding next
wrapped = refl

byte_made :
    generate memory source 1 (numeric 0 3) false (pos 300)
    ≡ (pos 301, ok (some (Value.byte_value 44)))
unfolding generate ua_namespace
byte_made = refl

-- An own type below Int32, as an array.
array_made : generate memory source 2 (numeric 2 8) true (pos 7) ≡ (pos 8, ok (some Value.other))
unfolding generate ua_namespace
array_made = refl

-- Arrays of booleans are not supported.
no_array : generate memory source 2 (numeric 0 1) true (pos 7) ≡ (pos 7, throws no_generator)
unfolding generate ua_namespace
no_array = refl

generate-type_example :
    (v : Value) × (generate memory source 4 (numeric 0 294) false (pos 1)
      ≡ ((generate_kind memory source Kind.date_time (pos 1)).0, ok (some v)))
    × (memory.type_of v ≡ id_date_time)
unfolding kind_of ua_namespace
generate-type_example =
    generate-type memory memory-Lawful source 3 (numeric 0 294) (pos 1) Kind.date_time refl refl
      refl
