-- ===== src/Timer/Countdown.antt =====
-- How long the timer of src/common/Timer.cpp runs.
use cli_cpp.Prelude.{ℕ, zero, suc, ◌<◌, ◌≡◌, refl, arith, Str}
use cli_cpp.Prelude.Int.{ℤ, pos, negsuc}
use cli_cpp.Timer.{
  Timer, create, reset, expired_text, timed_out, scheduled, failed, timer_event, run_timer, forever,
}

pub timer_event-pos :
    (n r : ℕ) (name : Str)
    → timer_event (record { timeout = pos n; remaining = pos (suc r); name = name })
      ≡ scheduled (record { timeout = pos n; remaining = pos r; name = name })
unfolding timer_event
timer_event-pos n r name = ground arith

pub timer_event-zero :
    (n : ℕ) (name : Str)
    → timer_event (record { timeout = pos n; remaining = pos 0; name = name }) ≡ timed_out
unfolding timer_event
timer_event-zero n name = ground arith

run_timer-remaining :
    (n r k : ℕ) (name : Str)
    → r < k
    → run_timer k (record { timeout = pos n; remaining = pos r; name = name }) ≡ (r, timed_out)
unfolding run_timer
run_timer-remaining n r zero name h = absurd (omega arith)
run_timer-remaining n zero (suc k) name h = rw (timer_event-zero n name, run_timer)
run_timer-remaining n (suc r) (suc k) name h =
    rw (timer_event-pos n r name, run_timer) (rw (run_timer-remaining n r k name (omega arith)))

-- With a timeout of n seconds and no reset, `timerEvent` schedules itself exactly n times and then
-- exits; it never throws.
pub run_timer-create :
    (n k : ℕ) (name : Str) → n < k → run_timer k (create (pos n) name) ≡ (n, timed_out)
unfolding create
run_timer-create n k name h = run_timer-remaining n n k name h

-- A reset in between starts the count again, whatever was left: n more calls, then the exit.
pub run_timer-reset :
    (t : Timer) (n k : ℕ) → t.timeout ≡ pos n → n < k → run_timer k (reset t) ≡ (n, timed_out)
unfolding reset
run_timer-reset t n k e h = rw (e) (run_timer-remaining n n k t.name h)

-- The timer FOREVER is never expired, throws nothing, and is scheduled in every call.
pub run_timer-forever :
    (k : ℕ) (r : ℤ) (name : Str)
    → run_timer k (record { timeout = forever; remaining = r; name = name })
      ≡ (k, scheduled (record { timeout = forever; remaining = r; name = name }))
unfolding run_timer timer_event
run_timer-forever zero r name = refl
run_timer-forever (suc k) r name = rw (run_timer-forever k r name)

-- A negative timeout other than FOREVER and the least int is not expired at once: its first count down throws.
pub run_timer-negative :
    (n k : ℕ) (name : Str)
    → suc n < 2147483647
    → run_timer (suc k) (create (negsuc (suc n)) name)
      ≡ (0, failed (expired_text (create (negsuc (suc n)) name)))
unfolding run_timer timer_event create expired_text
run_timer-negative n k name h = ground arith

-- The least int as a timeout wraps around in its first count down to the greatest one, and then runs on from there.
pub timer_event-least :
    (name : Str)
    → timer_event (create (negsuc 2147483647) name)
      ≡ scheduled (record { timeout = negsuc 2147483647; remaining = pos 2147483647; name = name })
unfolding timer_event create
timer_event-least name = ground arith
