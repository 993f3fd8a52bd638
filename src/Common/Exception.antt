-- ===== src/Common/Exception.antt =====
-- src/common/Exception.cpp: an exception with an optional error code and an optional cause, of
-- which it keeps a deep copy.
pub mod Chain
mod Tests
use opc_ua_server.Prelude.{ℕ, Option, none, some, Text, bytes, show_nat, c_str, ◌++◌}

pub data Exception : Type 0 where
  -- message, file, line, error code
  plain : Text → Text → ℕ → Option ℕ → Exception
  -- the same with a cause
  caused : Text → Text → ℕ → Option ℕ → Exception → Exception

-- The constructor: neither cause nor code.
pub create : Text → Text → ℕ → Exception
create message file line = plain message file line none

-- The copy constructor, with the copy of the cause.
pub copy : Exception → Exception
copy (plain m f l c) = plain m f l c
copy (caused m f l c e) = caused m f l c (copy e)

pub get_message : Exception → Text
get_message (plain m f l c) = m
get_message (caused m f l c e) = m

pub set_cause : Exception → Exception → Exception
set_cause (plain m f l c) cause = caused m f l c (copy cause)
set_cause (caused m f l c e) cause = caused m f l c (copy cause)

pub get_cause : Exception → Option Exception
get_cause (plain m f l c) = none
get_cause (caused m f l c e) = some e

-- A null pointer deletes the code.
pub set_error_code : Exception → Option ℕ → Exception
set_error_code (plain m f l c) code = plain m f l code
set_error_code (caused m f l c e) code = caused m f l code e

-- The own code, or else that of the cause.
unfoldable pub get_error_code : Exception → Option ℕ
get_error_code (plain m f l c) = c
get_error_code (caused m f l none e) = get_error_code e
get_error_code (caused m f l (some c) e) = some c

-- "%s\n  at %s:%d"
pub frame : Text → Text → ℕ → Text
frame message file line =
    c_str message ++ (bytes "\n  at " ++ (c_str file ++ (bytes ":" ++ show_nat line)))

pub get_stack_trace : Exception → Text → Text
get_stack_trace (plain m f l c) trace = trace ++ frame m f l
get_stack_trace (caused m f l c e) trace =
    get_stack_trace e ((trace ++ frame m f l) ++ bytes "\nCaused by: ")
