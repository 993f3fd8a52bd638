-- ===== src/Common/Exception/Tests.antt =====
-- Exceptions at concrete values.
use opc_ua_server.Prelude.{◌≡◌, none, some, [], bytes, c_str, show_nat}
use opc_ua_server.Common.Exception.{
  Exception, plain, caused, set_cause, get_error_code, get_stack_trace, frame,
}
use opc_ua_server.Common.Exception.Chain.{get_error_code-set_cause, get_stack_trace-joined}

abbrev root_cause : Exception
root_cause = plain (bytes "closed") (bytes "Client.cpp") 12 (some 7)

abbrev outer : Exception
outer = plain (bytes "read failed") (bytes "Io.cpp") 40 none

-- The code of the cause is reported.
code_of_the_cause : get_error_code (set_cause outer root_cause) ≡ some 7
code_of_the_cause = get_error_code-set_cause outer root_cause

joined_stack_trace :
    get_stack_trace (caused (bytes "read failed") (bytes "Io.cpp") 40 none root_cause) []
    ≡ bytes "read failed\n  at Io.cpp:40\nCaused by: closed\n  at Client.cpp:12"
unfolding get_stack_trace frame c_str show_nat
joined_stack_trace =
    get_stack_trace-joined (caused (bytes "read failed") (bytes "Io.cpp") 40 none root_cause) []
