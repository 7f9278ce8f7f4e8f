-- ===== src/Transport/Fields.antt =====
-- src/transport.rs: the limits of the transport, and the typed fields of an envelope.
use rcodex.Common.{ℕ, ◌+◌, ◌-◌, ◌*◌, ◌/◌, ◌^◌, min, Result, Error, context, Text}
use rcodex.Json.{Map, field, as_str, as_u64, and_then}

abbrev pub segment_target_bytes : ℕ
segment_target_bytes = 100 * 1024

abbrev pub max_frame_bytes : ℕ
max_frame_bytes = 150 * 1024

abbrev pub max_message_bytes : ℕ
max_message_bytes = 64 * 1024 * 1024

-- `a.div_ceil(b)`.
abbrev pub div_ceil : ℕ → ℕ → ℕ
div_ceil a b = (a + b - 1) / b

abbrev pub max_segments : ℕ
max_segments = div_ceil max_message_bytes segment_target_bytes

abbrev pub max_concurrent_assemblies : ℕ
max_concurrent_assemblies = 8

abbrev pub max_buffered_assembly_bytes : ℕ
max_buffered_assembly_bytes = max_message_bytes

abbrev pub max_local_app_message_bytes : ℕ
max_local_app_message_bytes = 1024 * 1024

-- `usize` and `u64` have 64 bits.
abbrev pub u64_max : ℕ
u64_max = 2 ^ 64 - 1

abbrev pub saturating_add : ℕ → ℕ → ℕ
saturating_add a b = min (a + b) u64_max

unfoldable pub string_field : Map → Text → Result Error Text
string_field m name = context "relay envelope has no field" (and_then (field name m) as_str)

-- `usize::try_from` of a `u64` does not fail.
unfoldable pub usize_field : Map → Text → Result Error ℕ
usize_field m name = context "relay envelope has no valid field" (and_then (field name m) as_u64)
