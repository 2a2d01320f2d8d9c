-- ===== src/Connector/Timeout.antt =====
-- The time-out of the connector of src/api/qpid-proton/reactor/handler/ConnectorHandler.cpp.
use cli_cpp.Prelude.{
  ℕ, zero, suc, ◌<◌, ◌≡◌, refl, ap, Bool, true, false, List, [], ◌∷◌, ◌++◌, append-nil, arith, Str,
  if◌then◌else◌,
}
use cli_cpp.Prelude.Int.{pos}
use cli_cpp.Timer.{Timer}
use cli_cpp.Timer.Countdown.{timer_event-pos, timer_event-zero}
use cli_cpp.Connector.{Effect, schedule_second, Connector, on_timer, close_objects}

-- Whether the effects of timerEvent bring it back.
abbrev pub comes_back : List Effect → Bool
comes_back (schedule_second ∷ es) = true
comes_back es = false

-- The calls of timerEvent one after another, as long as it schedules itself, up to the number given.
abbrev pub run_timers : ℕ → Connector → List Effect
run_timers zero h = []
run_timers (suc k) h =
    let r = on_timer h in
    let rest = run_timers k r.0 in r.1 ++ (if comes_back r.1 then rest else [])

abbrev pub seconds : ℕ → List Effect
seconds zero = []
seconds (suc n) = schedule_second ∷ seconds n

close_objects-timer :
    (h : Connector) (t : Timer) → close_objects (record h { timer = t }) ≡ close_objects h
unfolding close_objects
close_objects-timer h t = refl

-- closeObjects begins with the closing of a handle, which does not bring timerEvent back.
comes_back-close_objects : (h : Connector) → comes_back (close_objects h) ≡ false
unfolding close_objects
comes_back-close_objects h = ground arith

-- A connector whose timer has r seconds left comes back r times, closes its objects once and is not
-- scheduled again, however many calls are waited for beyond.
pub run_timers-close_objects :
    (k r n : ℕ) (name : Str) (h : Connector)
    → r < k
    → run_timers k (record h { timer = record { timeout = pos n; remaining = pos r; name = name } })
      ≡ seconds r ++ close_objects h
unfolding on_timer
run_timers-close_objects zero r n name h b = absurd (omega arith)
run_timers-close_objects (suc k) zero n name h b =
    let t : Timer = record { timeout = pos n; remaining = pos 0; name = name } in
    rw
      (
        run_timers,
        on_timer,
        timer_event-zero n name,
        close_objects-timer h t,
        comes_back-close_objects h,
      )
      (append-nil (close_objects h))
run_timers-close_objects (suc k) (suc r) n name h b =
    rw (run_timers, on_timer, timer_event-pos n r name)
      (ap (◌∷◌ schedule_second) (run_timers-close_objects k r n name h (omega arith)))
