-- ===== src/MonitorWire/Time.antt =====
-- Times: `split_timestamp`, `join_timestamp` and the two's complement of 64 bits.
use cpp_tlfss.Base.{
  ℕ, zero, suc, ◌+◌, ◌-◌, ◌*◌, ◌^◌, ◌<◌, Bool, true, not, ◌&&◌, ◌||◌, Option, none, some, List, ltb,
  ◌==◌, if◌then◌else◌, ◌≡◌, arith, ℤ, pos, negsuc, neg, pred, trunc_div, trunc_rem, int_ltb, int_eq,
}
use cpp_tlfss.AlarmProtocol.Fields.{put_u64, get_u64}

abbrev pub nanoseconds_per_second : ℕ
nanoseconds_per_second = 1000000000

pub record TimestampParts : Type 0 where
  pub seconds : ℤ
  pub nanoseconds : ℕ

-- A negative remainder is made positive.
unfoldable pub split_timestamp : ℤ → TimestampParts
split_timestamp total = elim (trunc_rem total nanoseconds_per_second) [
  | pos r ↦ record { seconds = trunc_div total nanoseconds_per_second; nanoseconds = r }
  | negsuc r ↦ record {
    seconds = pred (trunc_div total nanoseconds_per_second);
    nanoseconds = nanoseconds_per_second - (r + 1);
  }
]

unfoldable pub timestamp_parts_less : TimestampParts → TimestampParts → Bool
timestamp_parts_less a b =
    int_ltb a.seconds b.seconds || (int_eq a.seconds b.seconds && ltb a.nanoseconds b.nanoseconds)

unfoldable pub is_valid_nanoseconds : ℕ → Bool
is_valid_nanoseconds n = ltb n nanoseconds_per_second

-- The limits of a 64-bit time.
abbrev pub min_timestamp : ℤ
min_timestamp = negsuc (2 ^ 63 - 1)

abbrev pub max_timestamp : ℤ
max_timestamp = pos (2 ^ 63 - 1)

-- Seconds times a thousand million, and nanoseconds added, with no overflow.
abbrev total_of : ℤ → ℕ → ℤ
total_of (pos s) n = pos (s * 1000000000 + n)
total_of (negsuc s) n = neg ((s + 1) * 1000000000 - n)

unfoldable pub join_timestamp : ℤ → ℕ → Option ℤ
unfolding is_valid_nanoseconds timestamp_parts_less split_timestamp
join_timestamp seconds nanoseconds =
    if not (is_valid_nanoseconds nanoseconds)
    then none
    else if timestamp_parts_less input minimum || timestamp_parts_less maximum input
    then none
    else if int_eq seconds minimum.seconds
    then some (neg (2 ^ 63 - (nanoseconds - minimum.nanoseconds)))
    else some (total_of seconds nanoseconds)
  where
    input : TimestampParts
    input = record { seconds = seconds; nanoseconds = nanoseconds }

    minimum : TimestampParts
    minimum = split_timestamp min_timestamp

    maximum : TimestampParts
    maximum = split_timestamp max_timestamp

-- A 64-bit time.
abbrev pub IsTime : ℤ → Type 0
IsTime (pos n) = n < 2 ^ 63
IsTime (negsuc n) = n < 2 ^ 63

-- `static_cast<std::uint64_t>`.
abbrev pub to_bits : ℤ → ℕ
to_bits (pos n) = n
to_bits (negsuc n) = 2 ^ 64 - (n + 1)

unfoldable pub put_i64_twos_complement : ℤ → List ℕ
put_i64_twos_complement v = put_u64 (to_bits v)

-- `get_i64_twos_complement`, from the bits that `get_u64` reads.
unfoldable pub from_bits : ℕ → ℤ
from_bits bits =
    if ltb bits (2 ^ 63)
    then pos bits
    else if 2 ^ 64 - bits == 2 ^ 63
    then min_timestamp
    else neg (2 ^ 64 - bits)

unfoldable pub get_i64_twos_complement : List ℕ → ℤ
unfolding from_bits
get_i64_twos_complement input = from_bits (get_u64 input)

neg_seconds-IsTime : (k : ℕ) → k < 2 ^ 63 → IsTime (neg k)
neg_seconds-IsTime zero h = omega arith
neg_seconds-IsTime (suc k) h = omega arith

-- The parts of a 64-bit time fit into their fields.
pub split_timestamp-fits :
    (t : ℤ)
    → IsTime t
    → IsTime (split_timestamp t).seconds
      × ((split_timestamp t).nanoseconds < 2 ^ 32)
      × (is_valid_nanoseconds (split_timestamp t).nanoseconds ≡ true)
unfolding split_timestamp is_valid_nanoseconds
split_timestamp-fits (pos n) h = ground arith
split_timestamp-fits (negsuc n) h = ground arith

-- A time that is split into seconds and nanoseconds, as the header has them, is joined again to the
-- same time, for every 64-bit time, those before the epoch and the least among them.
pub join_timestamp-split :
    (t : ℤ)
    → IsTime t
    → join_timestamp (split_timestamp t).seconds (split_timestamp t).nanoseconds ≡ some t
unfolding join_timestamp split_timestamp timestamp_parts_less is_valid_nanoseconds
join_timestamp-split (pos n) h = ground arith
join_timestamp-split (negsuc n) h = ground arith

pub from_bits-to_bits : (t : ℤ) → IsTime t → from_bits (to_bits t) ≡ t
unfolding from_bits
from_bits-to_bits (pos n) h = ground arith
from_bits-to_bits (negsuc n) h = ground arith
