-- ===== src/Exports.antt =====
-- `create` of the classes and `init` of `System`: the functions that JavaScript sees, each under the
-- name that `V8H_IMPLEMENT` and `V8H_STATIC_IMPLEMENT` of src/v8h.h make of its C++ name.
pub mod Keys
pub mod Table
mod Tests
use v8h.Base.{ℕ, List, [], ◌∷◌}
use v8h.Base.Outcome.{Outcome, ok, ◌>>=◌}
use v8h.Base.Text.{bytes_of}
use v8h.Algorithm.{underline_to_camel}

-- the JavaScript name and the C++ name of a function
abbrev pub Entry : Type 0
Entry = List ℕ × List ℕ

unfoldable pub implement : List (List ℕ) → Outcome (List Entry)
implement [] = ok []
implement (name ∷ names) =
    underline_to_camel name >>= λ key. implement names >>= λ table. ok ((key, name) ∷ table)

-- `Buffer::create`
abbrev pub buffer_functions : List (List ℕ)
buffer_functions =
    bytes_of "prepare"
    ∷ bytes_of "data"
    ∷ bytes_of "zero"
    ∷ bytes_of "write_buffer"
    ∷ bytes_of "write_utf8"
    ∷ bytes_of "write_ucs2"
    ∷ bytes_of "write_ascii"
    ∷ bytes_of "write_uint32"
    ∷ bytes_of "write_int32"
    ∷ bytes_of "write_double"
    ∷ bytes_of "peek_utf8"
    ∷ bytes_of "_peek_buffer"
    ∷ bytes_of "read_utf8"
    ∷ bytes_of "_read_buffer"
    ∷ bytes_of "read_int32"
    ∷ bytes_of "read_uint32"
    ∷ bytes_of "read_int64"
    ∷ bytes_of "read_double"
    ∷ bytes_of "consume"
    ∷ bytes_of "commit"
    ∷ bytes_of "close"
    ∷ bytes_of "size"
    ∷ bytes_of "reserve"
    ∷ bytes_of "remain"
    ∷ bytes_of "clear"
    ∷ bytes_of "show"
    ∷ bytes_of "partial_find_buffer"
    ∷ []

-- `Service::create`
abbrev pub service_functions : List (List ℕ)
service_functions =
    bytes_of "in"
    ∷ bytes_of "out"
    ∷ bytes_of "del"
    ∷ bytes_of "error"
    ∷ bytes_of "wait"
    ∷ bytes_of "run"
    ∷ bytes_of "close"
    ∷ bytes_of "trigger"
    ∷ bytes_of "trigger_by_event_id"
    ∷ bytes_of "get_callback_from_event_id"
    ∷ bytes_of "get_fds_number"
    ∷ []

-- `Socket::create`
abbrev pub socket_functions : List (List ℕ)
socket_functions =
    bytes_of "_close"
    ∷ bytes_of "listen"
    ∷ bytes_of "bind_tcp"
    ∷ bytes_of "bind_unix"
    ∷ bytes_of "create_tcp"
    ∷ bytes_of "create_unix"
    ∷ bytes_of "_accept_tcp"
    ∷ bytes_of "_accept_unix"
    ∷ bytes_of "_connect_tcp"
    ∷ bytes_of "_connect_unix"
    ∷ bytes_of "_read_buffer"
    ∷ bytes_of "_write_utf8"
    ∷ bytes_of "_write_buffer"
    ∷ []

-- `File::create`
abbrev pub file_functions : List (List ℕ)
file_functions =
    bytes_of "dirname"
    ∷ bytes_of "read"
    ∷ bytes_of "realpath"
    ∷ bytes_of "readable"
    ∷ bytes_of "writable"
    ∷ bytes_of "executable"
    ∷ bytes_of "exists"
    ∷ []

-- `System::init`
abbrev pub system_functions : List (List ℕ)
system_functions =
    bytes_of "_require" ∷ bytes_of "forceGC" ∷ bytes_of "puts" ∷ bytes_of "print" ∷ []

-- `C::init`, which sets `fread` twice
abbrev pub c_functions : List (List ℕ)
c_functions =
    bytes_of "strerror"
    ∷ bytes_of "malloc"
    ∷ bytes_of "free"
    ∷ bytes_of "perror"
    ∷ bytes_of "isNull"
    ∷ bytes_of "access"
    ∷ bytes_of "realpath"
    ∷ bytes_of "fread"
    ∷ bytes_of "fwrite"
    ∷ bytes_of "fread"
    ∷ bytes_of "fopen"
    ∷ bytes_of "fclose"
    ∷ bytes_of "feof"
    ∷ bytes_of "ferror"
    ∷ bytes_of "puts"
    ∷ bytes_of "string"
    ∷ []

-- the numbers that `C::init` sets, under their own names
abbrev pub c_constants : List (List ℕ × ℕ)
c_constants =
    (bytes_of "W_OK", 2)
    ∷ (bytes_of "R_OK", 4)
    ∷ (bytes_of "X_OK", 1)
    ∷ (bytes_of "F_OK", 0)
    ∷ (bytes_of "PATH_MAX", 4096)
    ∷ []
