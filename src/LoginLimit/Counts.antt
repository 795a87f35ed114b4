-- ===== src/LoginLimit/Counts.antt =====
-- The tracker seen from one IP, and what holds of every reachable tracker.
use xyecoc_mailbridge.Base.{
  ℕ, ◌+◌, ◌<◌, ◌≡◌, ◌≢◌, refl, false, Option, none, some, List, [], ◌∷◌, Bytes, eqb, eqb_iff,
  is_empty, ltb, leb, if◌then◌else◌, lookup, put, lookup-put, lookup-erase, arith, Bool-cases, inl,
  inr, ◌∙◌, sym, subst,
}
use xyecoc_mailbridge.LoginLimit.{
  Tracker, new, max_failed_attempts, block_duration, or_zero, check_block, allowed, count_failure,
  record_failure, record_success, Call, allowed_call, failure_call, success_call, step, caller, run,
}

-- What the tracker knows of one IP: the failures counted so far and the end of a block.
pub record Status : Type 0 where
  pub failures : ℕ
  pub blocked : Option ℕ

abbrev pub status : Bytes → Tracker → Status
status ip t = record {
  failures = or_zero (lookup ip t.failed);
  blocked = lookup ip t.blocked_until;
}

abbrev pub clean : Status
clean = record { failures = 0; blocked = none }

-- The specification: one IP, with no maps.
unfoldable pub expire : Option ℕ → ℕ → Status → Status
expire none now s = s
expire (some until) now s = if ltb now until then s else clean

unfoldable pub spec_step : Call → Status → Status
unfolding expire
spec_step (allowed_call now ip) s = expire s.blocked now s
spec_step (failure_call now ip) s =
    if leb max_failed_attempts (s.failures + 1)
    then record { failures = 0; blocked = some (now + block_duration) }
    else record s { failures = s.failures + 1 }
spec_step (success_call ip) s = clean

pub is_empty-false : (ip : Bytes) → ip ≢ [] → is_empty ip ≡ false
is_empty-false [] h = absurd (h refl)
is_empty-false (x ∷ xs) h = refl

check_block-status :
    (ip j : Bytes) (b : Option ℕ) (now : ℕ) (t : Tracker)
    → lookup j t.blocked_until ≡ b
    → status ip (check_block b now j t).1
      ≡ (if eqb j ip then expire b now (status ip t) else status ip t)
unfolding check_block expire
check_block-status ip j none now t e = ground arith
check_block-status ip j (some until) now t e =
    ground (arith, lookup-erase j ip t.failed, lookup-erase j ip t.blocked_until)

count_failure-status :
    (ip j : Bytes) (n now : ℕ) (t : Tracker)
    → status ip (count_failure n now j t) ≡ (
        if eqb j ip
        then (if leb max_failed_attempts n
            then record { failures = 0; blocked = some (now + block_duration) }
            else record { failures = n; blocked = lookup ip t.blocked_until })
        else status ip t)
unfolding count_failure
count_failure-status ip j n now t = ground (
  arith,
  lookup-erase j ip (put j n t.failed),
  lookup-put j ip n t.failed,
  lookup-put j ip (now + block_duration) t.blocked_until,
)

check-status :
    (now : ℕ) (ip j : Bytes) (t : Tracker)
    → ip ≢ []
    → status ip (allowed now j t).1
      ≡ (if eqb j ip then expire (lookup ip t.blocked_until) now (status ip t) else status ip t)
unfolding allowed
check-status now ip j t h = ground (
  arith,
  eqb_iff j ip,
  is_empty-false ip h,
  check_block-status ip j (lookup j t.blocked_until) now t refl,
)

failure-status :
    (now : ℕ) (ip j : Bytes) (t : Tracker)
    → ip ≢ []
    → status ip (record_failure now j t)
      ≡ (if eqb j ip then spec_step (failure_call now j) (status ip t) else status ip t)
unfolding record_failure spec_step
failure-status now ip j t h = ground (
  arith,
  eqb_iff j ip,
  is_empty-false ip h,
  count_failure-status ip j (or_zero (lookup j t.failed) + 1) now t,
)

pub success-status :
    (ip j : Bytes) (t : Tracker)
    → ip ≢ []
    → status ip (record_success j t) ≡ (if eqb j ip then clean else status ip t)
unfolding record_success
success-status ip j t h = ground (
  arith,
  eqb_iff j ip,
  is_empty-false ip h,
  lookup-erase j ip t.failed,
  lookup-erase j ip t.blocked_until,
)

-- Refinement: for every IP but the empty one, a call acts on what the tracker knows of that IP as
-- the map-free specification does when the call names the IP, and not at all when it names another.
pub step-status :
    (c : Call) (ip : Bytes) (t : Tracker)
    → ip ≢ []
    → status ip (step c t) ≡ (if eqb (caller c) ip then spec_step c (status ip t) else status ip t)
unfolding step spec_step
step-status (allowed_call now j) ip t h = check-status now ip j t h
step-status (failure_call now j) ip t h = failure-status now ip j t h
step-status (success_call j) ip t h = success-status ip j t h

-- The calls that name `ip`, in order.
unfoldable pub about : Bytes → List Call → List Call
about ip [] = []
about ip (c ∷ cs) = let rest = about ip cs in if eqb (caller c) ip then c ∷ rest else rest

unfoldable pub spec_run : List Call → Status → Status
spec_run [] s = s
spec_run (c ∷ cs) s = spec_run cs (spec_step c s)

-- For every IP but the empty one, any interleaving of calls leaves for that IP what the
-- specification computes from the calls that name it, taken alone and in order.
pub run-status :
    (cs : List Call) (ip : Bytes) (t : Tracker)
    → ip ≢ []
    → status ip (run cs t) ≡ spec_run (about ip cs) (status ip t)
unfolding run spec_run about
run-status [] ip t h = refl
run-status (c ∷ cs) ip t h = elim (Bool-cases (eqb (caller c) ip)) [
  | inl own ↦ run-status cs ip (step c t) h ∙ rw (step-status c ip t h, own)
  | inr other ↦ run-status cs ip (step c t) h ∙ rw (step-status c ip t h, other)
]

Below : Status → Type 0
Below s = s.failures < max_failed_attempts

spec_step-Below : (c : Call) (s : Status) → Below s → Below (spec_step c s)
unfolding spec_step Below
spec_step-Below c s h = ground arith

spec_run-Below : (cs : List Call) (s : Status) → Below s → Below (spec_run cs s)
unfolding spec_run
spec_run-Below [] s h = h
spec_run-Below (c ∷ cs) s h = spec_run-Below cs (spec_step c s) (spec_step-Below c s h)

-- After any calls on a new tracker, the failures counted for an IP that is not empty are below the
-- threshold: reaching it starts a block and drops the count.
pub run-new-below :
    (cs : List Call) (ip : Bytes)
    → ip ≢ []
    → or_zero (lookup ip (run cs new).failed) < max_failed_attempts
unfolding new Below lookup
run-new-below cs ip h =
    subst Below (sym (run-status cs ip new h)) (spec_run-Below (about ip cs) _ (omega arith))
