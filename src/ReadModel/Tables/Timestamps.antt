-- ===== src/ReadModel/Tables/Timestamps.antt =====
-- A timestamp that is written as a text of digits is read back.
use prism_plan.Shared.{◌≡◌, refl, none, some, ℤ, IsInt64, format_int, atoi-format_int}
use prism_plan.Json.{into_int, into_string}
use prism_plan.ReadModel.Tables.{TimeParser, parse_timestamp, stamp_text, stamp_in_text}

-- No text of an integer is an RFC 3339 time.
abbrev pub RejectsIntegers : TimeParser → Type 0
RejectsIntegers parse_time = (t : ℤ) → parse_time (format_int t) ≡ none

stamp_in_text-format_int :
    (parse_time : TimeParser) (t : ℤ)
    → RejectsIntegers parse_time
    → IsInt64 t
    → stamp_in_text parse_time (format_int t) ≡ t
stamp_in_text-format_int parse_time t rejects sized = rw (rejects t, atoi-format_int t sized) refl

pub parse_timestamp-stamp_text :
    (parse_time : TimeParser) (t : ℤ)
    → RejectsIntegers parse_time
    → IsInt64 t
    → parse_timestamp parse_time (some (stamp_text t)) ≡ t
unfolding parse_timestamp into_int into_string
parse_timestamp-stamp_text parse_time t rejects sized =
    stamp_in_text-format_int parse_time t rejects sized
