-- ===== src/LoginLimit.antt =====
-- internal/loginlimit/loginlimit.go: failed login attempts per client IP. `time.Now()` is the
-- argument `now` of an operation, in nanoseconds. The mutex makes each operation one step, so any
-- concurrent use is a list of operations. A nil `*Tracker` is the callers' `none`.
pub mod Counts
pub mod Blocking
use xyecoc_mailbridge.Base.{
  ℕ, ◌+◌, ◌*◌, Bool, true, false, Option, none, some, List, [], ◌∷◌, Bytes, is_empty, ltb, leb,
  if◌then◌else◌, lookup, put, erase,
}

abbrev pub max_failed_attempts : ℕ
max_failed_attempts = 5

-- Five minutes.
abbrev pub block_duration : ℕ
block_duration = 300000000000

pub record Tracker : Type 0 where
  pub failed : List (Bytes × ℕ)
  pub blocked_until : List (Bytes × ℕ)

unfoldable pub new : Tracker
new = record { failed = []; blocked_until = [] }

abbrev pub or_zero : Option ℕ → ℕ
or_zero none = 0
or_zero (some n) = n

-- `Allowed` behind its guards; the entry of `blocked_until` decides.
unfoldable pub check_block : Option ℕ → ℕ → Bytes → Tracker → Bool × Tracker
check_block none now ip t = (true, t)
check_block (some until) now ip t =
    if ltb now until
    then (false, t)
    else (true, record { failed = erase ip t.failed; blocked_until = erase ip t.blocked_until })

-- `Allowed`.
unfoldable pub allowed : ℕ → Bytes → Tracker → Bool × Tracker
unfolding check_block
allowed now ip t =
    if is_empty ip then (true, t) else check_block (lookup ip t.blocked_until) now ip t

-- `RecordFailure` behind its guards, with `n` the incremented count.
unfoldable pub count_failure : ℕ → ℕ → Bytes → Tracker → Tracker
count_failure n now ip t =
    if leb max_failed_attempts n
    then record {
      failed = erase ip (put ip n t.failed);
      blocked_until = put ip (now + block_duration) t.blocked_until;
    }
    else record t { failed = put ip n t.failed }

-- `RecordFailure`.
unfoldable pub record_failure : ℕ → Bytes → Tracker → Tracker
unfolding count_failure
record_failure now ip t =
    if is_empty ip then t else count_failure (or_zero (lookup ip t.failed) + 1) now ip t

-- `RecordSuccess`.
unfoldable pub record_success : Bytes → Tracker → Tracker
record_success ip t =
    if is_empty ip
    then t
    else record { failed = erase ip t.failed; blocked_until = erase ip t.blocked_until }

-- One call by any goroutine of either server.
pub data Call : Type 0 where
  allowed_call failure_call : ℕ → Bytes → Call
  success_call : Bytes → Call

unfoldable pub step : Call → Tracker → Tracker
unfolding allowed record_failure record_success
step (allowed_call now ip) t = (allowed now ip t).1
step (failure_call now ip) t = record_failure now ip t
step (success_call ip) t = record_success ip t

abbrev pub caller : Call → Bytes
caller (allowed_call now ip) = ip
caller (failure_call now ip) = ip
caller (success_call ip) = ip

unfoldable pub run : List Call → Tracker → Tracker
run [] t = t
run (c ∷ cs) t = run cs (step c t)
