-- ===== src/Rabbitmq/CircuitBreaker/Recovery.antt =====
-- How a breaker opens, how long it blocks, and how it closes again.
use financial_notification_p.Prelude.{
  ℕ, ◌+◌, ◌≤◌, ◌<◌, ◌≡◌, refl, true, false, List, [], ◌∷◌, ◌++◌, length, keep, All, All-append,
  length-append, arith, ◌∙◌, leb, if◌then◌else◌,
}
use financial_notification_p.Rabbitmq.CircuitBreaker.{
  CircuitBreaker, closed, open_, half_open, is_open, record_success, record_failure, is_recent,
  transition_to_half_open,
}
use financial_notification_p.Rabbitmq.CircuitBreaker.Invariant.{
  Call, ask, success, failure, after, run,
}

-- The time at which a breaker may first let a request through again.
abbrev pub reopens_at : CircuitBreaker → ℕ
reopens_at b = b.opened_at + b.timeout_seconds

-- Each question of the sequence is put before that time.
abbrev pub IsEarly : ℕ → Call → Type 0
IsEarly until (ask t) = t < until
IsEarly until (success _) = Unit
IsEarly until (failure _ _ _) = Unit

after_early :
    (c : Call) (b : CircuitBreaker)
    → b.state ≡ open_
    → IsEarly (reopens_at b) c
    → ((after c b).state ≡ open_) × (reopens_at (after c b) ≡ reopens_at b)
unfolding is_open record_success record_failure
after_early (ask t) b o e = ground arith
after_early (success t) b o e = ground arith
after_early (failure t u v) b o e = ground arith

run_early :
    (until : ℕ) (cs : List Call) (b : CircuitBreaker)
    → b.state ≡ open_
    → reopens_at b ≡ until
    → All (IsEarly until) cs
    → ((run cs b).state ≡ open_) × (reopens_at (run cs b) ≡ until)
run_early until [] b o r es = (o, r)
run_early until (c ∷ cs) b o r es =
    let early : IsEarly (reopens_at b) c = rw r es.0 in
    let (o', r') = after_early c b o early in run_early until cs (after c b) o' (r' ∙ r) es.1

-- Whatever successes and failures are reported meanwhile, and whatever questions are put before
-- its timeout has passed, an open breaker blocks every request until then.
pub open_blocks :
    (cs : List Call) (b : CircuitBreaker) (t : ℕ)
    → b.state ≡ open_
    → All (IsEarly (reopens_at b)) cs
    → t < reopens_at b
    → (is_open t (run cs b)).0 ≡ true
unfolding is_open
open_blocks cs b t o es lt = ground (arith, run_early (reopens_at b) cs b o refl es)

abbrev pub successes : List ℕ → List Call
successes [] = []
successes (t ∷ ts) = success t ∷ successes ts

-- A success short of the last one keeps the breaker testing.
success_testing :
    (t : ℕ) (b : CircuitBreaker)
    → b.state ≡ half_open
    → b.success_count + 1 < b.success_threshold
    → ((record_success t b).state ≡ half_open)
      × ((record_success t b).success_count ≡ b.success_count + 1)
      × ((record_success t b).success_threshold ≡ b.success_threshold)
unfolding record_success
success_testing t b o lt = ground arith

successes_close :
    (ts : List ℕ) (b : CircuitBreaker)
    → b.state ≡ half_open
    → b.success_count < b.success_threshold
    → b.success_count + length ts ≡ b.success_threshold
    → ((run (successes ts) b).state ≡ closed)
      × ((run (successes ts) b).failure_count ≡ 0)
      × ((run (successes ts) b).failure_timestamps ≡ [])
unfolding record_success
successes_close [] b o lt n = absurd (omega arith)
successes_close (t ∷ []) b o lt n = ground arith
successes_close (t ∷ u ∷ ts) b o lt n =
    let (o', c, k) = success_testing t b o (omega arith) in
    successes_close (u ∷ ts) (record_success t b) o' (rw (c, k) (omega arith))
      (rw (c, k) (omega arith))

-- Once the timeout of an open breaker has passed, one question is answered with a request let
-- through and moves it to testing, and as many successes as `success_threshold`, which is not 0,
-- close it, with no failure left on record.
pub recovers :
    (t : ℕ) (ts : List ℕ) (b : CircuitBreaker)
    → b.state ≡ open_
    → reopens_at b ≤ t
    → 0 < b.success_threshold
    → length ts ≡ b.success_threshold
    → ((is_open t b).0 ≡ false)
      × ((run (ask t ∷ successes ts) b).state ≡ closed)
      × ((run (ask t ∷ successes ts) b).failure_count ≡ 0)
      × ((run (ask t ∷ successes ts) b).failure_timestamps ≡ [])
unfolding is_open transition_to_half_open
recovers t ts b o le pos n =
    let (passed, testing, zero_count, same) = asked in
    let (shut, no_count, no_times) =
      successes_close ts (is_open t b).1 testing (rw (zero_count, same) pos)
        (rw (zero_count, same) (omega (arith, n))) in
    (passed, shut, no_count, no_times)
  where
    asked :
        ((is_open t b).0 ≡ false)
        × ((is_open t b).1.state ≡ half_open)
        × ((is_open t b).1.success_count ≡ 0)
        × ((is_open t b).1.success_threshold ≡ b.success_threshold)
    asked = ground arith

abbrev pub failures : List ℕ → List Call
failures [] = []
failures (t ∷ ts) = failure t t t ∷ failures ts

keep-All :
    (now window lo hi : ℕ) (ts : List ℕ)
    → now ≤ hi
    → hi < lo + window
    → All (λ t. (lo ≤ t) × (t ≤ hi)) ts
    → keep (is_recent now window) ts ≡ ts
keep-All now window lo hi [] n h a = refl
keep-All now window lo hi (t ∷ ts) n h a = ground (arith, keep-All now window lo hi ts n h a.1)

-- A failure inside the window is kept on record with all before it.
failure_counts :
    (t lo hi : ℕ) (b : CircuitBreaker)
    → b.state ≡ closed
    → hi < lo + b.window_seconds
    → (lo ≤ t) × (t ≤ hi)
    → All (λ u. (lo ≤ u) × (u ≤ hi)) b.failure_timestamps
    → ((record_failure t t t b).failure_timestamps ≡ b.failure_timestamps ++ t ∷ [])
      × ((record_failure t t t b).state
          ≡ (if leb b.failure_threshold (length b.failure_timestamps + 1) then open_ else closed))
      × ((record_failure t t t b).window_seconds ≡ b.window_seconds)
      × ((record_failure t t t b).failure_threshold ≡ b.failure_threshold)
unfolding record_failure
failure_counts t lo hi b c h r a = ground (
  arith,
  keep-All t b.window_seconds lo hi (b.failure_timestamps ++ t ∷ []),
  length-append b.failure_timestamps (t ∷ []),
  All-append (λ u. (lo ≤ u) × (u ≤ hi)) b.failure_timestamps (t ∷ []) a (r, tt),
)

failures_open :
    (ts : List ℕ) (lo hi : ℕ) (b : CircuitBreaker)
    → b.state ≡ closed
    → hi < lo + b.window_seconds
    → All (λ u. (lo ≤ u) × (u ≤ hi)) ts
    → All (λ u. (lo ≤ u) × (u ≤ hi)) b.failure_timestamps
    → length b.failure_timestamps < b.failure_threshold
    → length b.failure_timestamps + length ts ≡ b.failure_threshold
    → (run (failures ts) b).state ≡ open_
failures_open [] lo hi b c h r a lt n = absurd (omega arith)
failures_open (t ∷ []) lo hi b c h r a lt n = ground (arith, failure_counts t lo hi b c h r.0 a)
failures_open (t ∷ u ∷ ts) lo hi b c h r a lt n =
    let (times, st, win, thr) = failure_counts t lo hi b c h r.0 a in
    let more : length (record_failure t t t b).failure_timestamps
        ≡ length b.failure_timestamps + 1 =
      rw times (length-append b.failure_timestamps (t ∷ [])) in
    failures_open (u ∷ ts) lo hi (record_failure t t t b) (ground (arith, st)) (rw win h) r.1
      (rw times (All-append (λ u. (lo ≤ u) × (u ≤ hi)) b.failure_timestamps (t ∷ []) a (r.0, tt)))
      (omega (arith, more, thr)) (omega (arith, more, thr))

-- As many failures as the threshold, which is not 0, all at instants less than one window apart, open a
-- closed breaker that has none on record.
pub opens :
    (ts : List ℕ) (lo hi : ℕ) (b : CircuitBreaker)
    → b.state ≡ closed
    → b.failure_timestamps ≡ []
    → 0 < b.failure_threshold
    → hi < lo + b.window_seconds
    → All (λ u. (lo ≤ u) × (u ≤ hi)) ts
    → length ts ≡ b.failure_threshold
    → (run (failures ts) b).state ≡ open_
opens ts lo hi b c e pos h a n =
    failures_open ts lo hi b c h a (rw e tt) (rw e pos) (rw e (omega arith))
