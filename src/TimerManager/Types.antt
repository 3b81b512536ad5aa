-- ===== src/TimerManager/Types.antt =====
-- Flags, entries and the state of the manager. Flags are a byte. A time is a count of nanoseconds
-- of the steady clock, and a callback the address at which it was allocated.
use cpp_tlfss.Base.{
  ℕ, Bool, true, false, not, ◌&&◌, List, [], ◌∷◌, ◌++◌, ◌==◌, if◌then◌else◌, bit_and,
}

abbrev pub once_flag : ℕ
once_flag = 0

abbrev pub recurring_flag : ℕ
recurring_flag = 1

abbrev pub worker_flag : ℕ
worker_flag = 2

unfoldable pub has_flag : ℕ → ℕ → Bool
has_flag value flag = not (flag == 0) && (bit_and value flag == flag)

-- `~known_bits` in eight bits.
abbrev pub unknown_mask : ℕ
unknown_mask = 252

unfoldable pub is_valid_timer_flags : ℕ → Bool
is_valid_timer_flags flags = bit_and flags unknown_mask == 0

pub record Timeval : Type 0 where
  pub tv_sec : ℕ
  pub tv_usec : ℕ

pub record TimerEntry : Type 0 where
  pub id : ℕ
  pub flags : ℕ
  pub next : ℕ
  pub interval : ℕ
  pub fire_count : ℕ
  pub cb : ℕ

-- The manager with the registry that it refers to.
pub record TimerManager : Type 0 where
  pub timers : List TimerEntry
  pub registry : List ℕ
  pub next_id : ℕ
  pub cleaned_up : Bool

abbrev pub fresh : TimerManager
fresh = record { timers = []; registry = []; next_id = 1; cleaned_up = false }

-- `CallbackRegistry::add` and `remove` of a pointer that is not null.
abbrev pub is_registered : ℕ → List ℕ → Bool
is_registered cb [] = false
is_registered cb (c ∷ cs) = if c == cb then true else is_registered cb cs

unfoldable pub registry_add : ℕ → List ℕ → List ℕ
registry_add cb cbs = if is_registered cb cbs then cbs else cbs ++ (cb ∷ [])

unfoldable pub registry_remove : ℕ → List ℕ → List ℕ
registry_remove cb [] = []
registry_remove cb (c ∷ cs) = let rest = registry_remove cb cs in if c == cb then rest else c ∷ rest
