-- ===== src/Binary/ParamId/Tests.antt =====
-- Ids at concrete values.
use opc_ua_server.Prelude.{◌≡◌, refl, none, [], ◌∷◌, bytes, arith, show_int, show_nat, c_str}
use opc_ua_server.Prelude.Int.{pos}
use opc_ua_server.Prelude.Result.{ok, undefined}
use opc_ua_server.Binary.Dto.{numeric, string}
use opc_ua_server.Binary.ParamId.{
  to_string, parse, parse_pieces, split, numeric_id, string_id, Memory, allocate, get_string,
}
use opc_ua_server.Binary.ParamId.RoundTrip.{parse-to_string, parse-to_string_dangles}

to_string_1007 : to_string (numeric (pos 0) 1007) ≡ bytes "NS0|Numeric|1007"
unfolding to_string show_int show_nat
to_string_1007 = refl

abbrev memory : Memory
memory = record { next = 40; strings = λ a. none }

parse-to_string_example :
    (parse (to_string (numeric (pos 3) 1007)) memory).0 ≡ numeric_id (pos 3) 1007
parse-to_string_example = parse-to_string (pos 3) 1007 memory (omega arith) (omega arith)

-- As long as the vector lives, the text is there.
live :
    get_string
      (string_id (pos 3) 42)
      (allocate (bytes "NS3" ∷ bytes "String" ∷ bytes "pump" ∷ []) memory)
    ≡ ok (bytes "pump")
unfolding get_string allocate
live = refl

parse-to_string_dangles_example :
    let (p, after) = parse (to_string (string (pos 3) (bytes "pump"))) memory in
    (p ≡ string_id (pos 3) 42) × (get_string p after ≡ undefined)
unfolding c_str
parse-to_string_dangles_example =
    parse-to_string_dangles (pos 3) (bytes "pump") memory (omega arith) (λ h. cc)

-- An empty text is read as a numeric id.
empty_text : (parse (to_string (string (pos 3) [])) memory).0 ≡ numeric_id (pos 0) 0
unfolding parse to_string c_str show_int show_nat split parse_pieces
empty_text = refl
