-- ===== src/Timer.antt =====
-- Timer: src/common/Timer.h and src/common/Timer.cpp, and the `timerEvent` with which the sender
-- and the receiver (src/api/qpid-proton/reactor/handler) count it down once a second.
pub mod Countdown
mod Tests
use cli_cpp.Prelude.{
  ℕ, zero, suc, ◌+◌, ◌-◌, ◌*◌, ◌/◌, ◌%◌, ◌≤◌, ◌<◌, String, ◌≡◌, refl, sym, ap, ◌∙◌, subst, ◌≢◌, ◌↔◌,
  ◌⊎◌, inl, inr, Bool, true, false, not, ◌&&◌, ◌||◌, Option, none, some, List, [], ◌∷◌, ◌++◌, map,
  foldl, append-nil, append_assoc, arith, Str, codes, str_eq, str_lt, str_eq→eq, str_eq_refl,
  ne→str_eq, ltb, leb, ◌==◌, if◌then◌else◌, ltb→lt, lt→ltb, leb→le, le→leb, lt→leb_false, eq→==,
  ne→==, ==→eq, Bool-cases, Option-cases, length, take, drop, length-append, take-length_append,
  drop-length_append, take-all, length-drop-le,
}
use cli_cpp.Prelude.Int.{ℤ, pos, negsuc, ◌-ℤ◌, ltb_ℤ, eqb_ℤ}

pub record Timer : Type 0 where
  pub timeout : ℤ
  pub remaining : ℤ
  pub name : Str

abbrev pub forever : ℤ
forever = negsuc 0

-- Timer(t, name)
unfoldable pub create : ℤ → Str → Timer
create t name = record { timeout = t; remaining = t; name = name }

unfoldable pub reset : Timer → Timer
reset t = record t { remaining = t.timeout }

unfoldable pub is_expired : Timer → Bool
is_expired t = if eqb_ℤ t.timeout forever then false else eqb_ℤ t.remaining (pos 0)

-- The text of a TimerExpiredException.
unfoldable pub expired_text : Timer → Str
expired_text t = codes "The timer " ++ (t.name ++ codes " has expired")

-- remaining-- on an int; below the least one it wraps around, as compilers make it.
unfoldable pub less_one : ℤ → ℤ
less_one r = if eqb_ℤ r (negsuc 2147483647) then pos 2147483647 else r -ℤ pos 1

-- operator--(), the prefix form; the text is that of the exception, if one is thrown.
unfoldable pub decrement : Timer → Timer × Option Str
unfolding less_one
decrement t =
    if eqb_ℤ t.timeout forever
    then (t, none)
    else let t' = record t { remaining = less_one t.remaining } in
      if ltb_ℤ t'.remaining (pos 0) then (t', some (expired_text t)) else (t', none)

-- operator--(int), the postfix form: the timer after it, and the copy that it returns, or the text
-- of the exception.
unfoldable pub decrement_postfix : Timer → Timer × (Timer ⊎ Str)
unfolding decrement
decrement_postfix t =
    if eqb_ℤ t.timeout forever
    then (t, inl t)
    else let r = decrement t in elim r.1 [ none ↦ (r.0, inl t) | some e ↦ (r.0, inr e) ]

-- What one call of a handler's `timerEvent` does.
pub data Verdict : Type 0 where
  timed_out : Verdict
  scheduled : Timer → Verdict
  failed : Str → Verdict

abbrev after_decrement : Timer × (Timer ⊎ Str) → Verdict
after_decrement (t, inl copy) = scheduled t
after_decrement (t, inr e) = failed e

-- timerEvent: exit if the timer is expired, else count down and come back in a second.
unfoldable pub timer_event : Timer → Verdict
unfolding is_expired decrement_postfix
timer_event t = if is_expired t then timed_out else after_decrement (decrement_postfix t)

-- The calls of `timerEvent` one after another, with nothing between them, up to the number given:
-- how many were made before the one that ended the program, and how that one ended.
unfoldable pub run_timer : ℕ → Timer → ℕ × Verdict
run_timer zero t = (0, scheduled t)
run_timer (suc n) t = elim (timer_event t) [
  | timed_out ↦ (0, timed_out)
  | failed e ↦ (0, failed e)
  | scheduled t' ↦ let r = run_timer n t' in (suc r.0, r.1)
]
