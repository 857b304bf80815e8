-- ===== src/Module/Timer.antt =====
-- The timers of fms/main.c, which wake the sources.
use fms.Base.{
  ℕ, zero, suc, ◌+◌, ◌*◌, ◌%◌, ◌^◌, ◌<◌, ◌≡◌, refl, Bool, true, false, List, [], ◌∷◌, arith, ◌==◌,
  if◌then◌else◌,
}

-- `fmd_timer_t`
pub record Timer : Type 0 where
  pub interval : ℕ
  pub ticks : ℕ

-- What the loop of `main` does to a timer each second: whether it fires, and the timer.
unfoldable pub tick_timer : Timer → Bool × Timer
tick_timer t =
    let ticks = (t.ticks + 1) % 2 ^ 32 in
    if ticks == t.interval
    then (true, record t { ticks = 0 })
    else (false, record t { ticks = ticks })

-- One round of that loop: which timers fire.
unfoldable pub tick_timers : List Timer → List Bool × List Timer
tick_timers [] = ([], [])
tick_timers (t ∷ ts) =
    let first = tick_timer t in let rest = tick_timers ts in (first.0 ∷ rest.0, first.1 ∷ rest.1)

-- A timer after `n` rounds, and how often it has fired.
unfoldable pub run_timer : ℕ → Timer → ℕ × Timer
run_timer zero t = (0, t)
run_timer (suc n) t =
    let before = run_timer n t in
    let last = tick_timer before.1 in (if last.0 then before.0 + 1 else before.0, last.1)

-- `timer_init`
unfoldable pub timer_init : ℕ → Timer
timer_init mod_interval = record { interval = mod_interval; ticks = 0 }

run_timer_interval : (n : ℕ) (t : Timer) → (run_timer n t).1.interval ≡ t.interval
unfolding run_timer tick_timer
run_timer_interval zero t = refl
run_timer_interval (suc n) t = ground (arith, run_timer_interval n t)

fires_on_time :
    (n interval : ℕ)
    → interval < 2 ^ 32
    → 0 < interval
    → ((run_timer n (timer_init interval)).0 * interval
          + (run_timer n (timer_init interval)).1.ticks
        ≡ n)
      × ((run_timer n (timer_init interval)).1.ticks < interval)
unfolding run_timer tick_timer timer_init
fires_on_time zero interval h p = (omega arith, p)
fires_on_time (suc n) interval h p =
    let ih = fires_on_time n interval h p in
    let r = run_timer n (timer_init interval) in
    let same : r.1.interval ≡ interval = run_timer_interval n (timer_init interval) in
    let product : (r.0 + 1) * interval ≡ r.0 * interval + interval = grind arith in
    let small : (r.1.ticks + 1) % 2 ^ 32 ≡ r.1.ticks + 1 = omega (arith, ih.1) in
    ground (arith, ih, same, product, small)

never_fires :
    (n : ℕ)
    → n < 2 ^ 32
    → ((run_timer n (timer_init 0)).0 ≡ 0) × ((run_timer n (timer_init 0)).1.ticks ≡ n)
unfolding run_timer tick_timer timer_init
never_fires zero h = (refl, refl)
never_fires (suc n) h =
    let ih = never_fires n (omega arith) in
    let r = run_timer n (timer_init 0) in
    let same : r.1.interval ≡ 0 = run_timer_interval n (timer_init 0) in
    let small : (r.1.ticks + 1) % 2 ^ 32 ≡ suc n = omega (arith, ih.1) in
    ground (arith, ih, same, small)

-- After `n` seconds a source with an interval other than 0 has been woken n / interval times, each
-- time when the interval was over; a source with the interval 0 is not woken for 2^32 - 1 seconds.
pub run_timer_lem :
    (n interval : ℕ)
    → interval < 2 ^ 32
    → (0 < interval
        → ((run_timer n (timer_init interval)).0 * interval
              + (run_timer n (timer_init interval)).1.ticks
            ≡ n)
          × ((run_timer n (timer_init interval)).1.ticks < interval))
      × (interval ≡ 0 → n < 2 ^ 32 → (run_timer n (timer_init interval)).0 ≡ 0)
run_timer_lem n interval h = (λ p. fires_on_time n interval h p, λ e l. rw e (never_fires n l).0)
