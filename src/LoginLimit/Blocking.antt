-- ===== src/LoginLimit/Blocking.antt =====
-- When an IP is blocked, and for how long.
use xyecoc_mailbridge.Base.{
  ℕ, ◌+◌, ◌<◌, ◌≡◌, ◌≢◌, refl, Bool, true, Option, none, some, List, [], ◌∷◌, ◌++◌, map, append-nil,
  length, Bytes, leb, lookup, arith, ap, ap₂, sym, ◌∙◌, eqb_refl,
}
use xyecoc_mailbridge.LoginLimit.{
  Tracker, max_failed_attempts, block_duration, check_block, allowed, record_success, Call,
  failure_call, run,
}
use xyecoc_mailbridge.LoginLimit.Counts.{
  Status, status, clean, spec_step, spec_run, about, run-status, success-status, is_empty-false,
}

failures_at : Bytes → List ℕ → List Call
failures_at ip = map λ now. failure_call now ip

-- The answer of `Allowed` from what is known of the IP.
answer : Option ℕ → ℕ → Bool
answer none now = true
answer (some until) now = leb until now

check_block-answer :
    (b : Option ℕ) (now : ℕ) (ip : Bytes) (t : Tracker) → (check_block b now ip t).0 ≡ answer b now
unfolding check_block answer
check_block-answer none now ip t = refl
check_block-answer (some until) now ip t = ground arith

allowed-answer :
    (now : ℕ) (ip : Bytes) (t : Tracker)
    → ip ≢ []
    → (allowed now ip t).0 ≡ answer (status ip t).blocked now
unfolding allowed
allowed-answer now ip t h =
    ground (arith, is_empty-false ip h, check_block-answer (lookup ip t.blocked_until) now ip t)

count_one :
    (now n : ℕ) (ip : Bytes) (b : Option ℕ)
    → n + 1 < max_failed_attempts
    → spec_step (failure_call now ip) (record { failures = n; blocked = b })
      ≡ record { failures = n + 1; blocked = b }
unfolding spec_step
count_one now n ip b h = ground arith

-- Failures that stay below the threshold are only counted.
spec_run-failures :
    (ip : Bytes) (times : List ℕ) (n : ℕ) (b : Option ℕ) (rest : List Call)
    → n + length times < max_failed_attempts
    → spec_run (failures_at ip times ++ rest) (record { failures = n; blocked = b })
      ≡ spec_run rest (record { failures = n + length times; blocked = b })
unfolding failures_at spec_run
spec_run-failures ip [] n b rest h =
    ap (λ (k : ℕ). spec_run rest (record { failures = k; blocked = b })) (omega arith)
spec_run-failures ip (now ∷ times) n b rest h =
    ap (λ (s : Status). spec_run (failures_at ip times ++ rest) s)
      (count_one now n ip b (omega arith))
    ∙ (spec_run-failures ip times (n + 1) b rest (omega arith)
        ∙ ap (λ (k : ℕ). spec_run rest (record { failures = k; blocked = b })) (omega arith))

count_last :
    (last n : ℕ) (ip : Bytes)
    → n ≡ 4
    → spec_run (failure_call last ip ∷ []) (record { failures = n; blocked = none })
      ≡ record { failures = 0; blocked = some (last + block_duration) }
unfolding spec_run spec_step
count_last last n ip h = ground arith

answer_of_run :
    (cs own : List Call) (ip : Bytes) (t : Tracker) (now : ℕ)
    → ip ≢ []
    → status ip t ≡ clean
    → about ip cs ≡ own
    → (allowed now ip (run cs t)).0 ≡ answer (spec_run own clean).blocked now
answer_of_run cs own ip t now h c e =
    allowed-answer now ip (run cs t) h
    ∙ ap (λ (s : Status). answer s.blocked now) (run-status cs ip t h ∙ ap₂ spec_run e c)

-- From a tracker that holds nothing about a non-empty IP (a new one, or one after a success),
-- whatever other IPs do in between: if fewer than five failures of the IP and nothing else about
-- it were recorded, `Allowed` lets it try at any time.
pub few_failures_allowed :
    (cs : List Call) (ip : Bytes) (t : Tracker) (times : List ℕ) (now : ℕ)
    → ip ≢ []
    → status ip t ≡ clean
    → about ip cs ≡ map (λ at. failure_call at ip) times
    → length times < max_failed_attempts
    → (allowed now ip (run cs t)).0 ≡ true
unfolding failures_at answer spec_run
few_failures_allowed cs ip t times now h c own few =
    answer_of_run cs _ ip t now h c own
    ∙ ap (λ (s : Status). answer s.blocked now)
        (ap (λ (l : List Call). spec_run l clean) (sym (append-nil (failures_at ip times)))
          ∙ spec_run-failures ip times 0 none [] (omega arith))

-- From the same start, after exactly five failures of a non-empty IP, the last at time `last`,
-- whatever other IPs do in between, `Allowed` refuses the IP until `last` plus the block's
-- duration, and lets it try from then on.
pub fifth_failure_blocks :
    (cs : List Call) (ip : Bytes) (t : Tracker) (times : List ℕ) (last now : ℕ)
    → ip ≢ []
    → status ip t ≡ clean
    → length times ≡ 4
    → about ip cs ≡ map (λ at. failure_call at ip) times ++ (failure_call last ip ∷ [])
    → (allowed now ip (run cs t)).0 ≡ leb (last + block_duration) now
unfolding failures_at answer spec_run spec_step
fifth_failure_blocks cs ip t times last now h c four own =
    answer_of_run cs _ ip t now h c own
    ∙ ap (λ (s : Status). answer s.blocked now)
        (spec_run-failures ip times 0 none (failure_call last ip ∷ []) (omega arith)
          ∙ count_last last _ ip (omega arith))

-- A recorded success lifts a block and forgets the failures of its IP at once: the tracker then
-- holds nothing about the IP, and `Allowed` lets it try at any time.
pub success_clears :
    (ip : Bytes) (t : Tracker) (now : ℕ)
    → ip ≢ []
    → (status ip (record_success ip t) ≡ clean) × ((allowed now ip (record_success ip t)).0 ≡ true)
unfolding answer
success_clears ip t now h =
    let cleared = success-status ip ip t h ∙ rw (eqb_refl ip) in
    (
      cleared,
      allowed-answer now ip (record_success ip t) h
          ∙ ap (λ (s : Status). answer s.blocked now) cleared,
    )
