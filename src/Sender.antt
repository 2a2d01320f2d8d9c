-- ===== src/Sender.antt =====
-- SenderHandler: src/api/qpid-proton/reactor/handler/SenderHandler.cpp and SenderHandler.h.
-- A handler takes the state to the next one and lists its calls of proton and of exit. What the
-- handler reads of proton (the credit, an error's text) is an argument. The message type of proton
-- is a parameter: `text` reads a string body and is `none` where get<string> throws
-- conversion_error, `set_text` writes the body. Counters that only grow are natural numbers. The
-- messages that SendingClient makes have no lists or maps inside of lists and maps, which are what the decoder may
-- throw at, and printing is taken to succeed here.
pub mod Handled
pub mod Sent
pub mod Progress
pub mod Closing
mod Tests
use cli_cpp.Prelude.{
  ℕ, zero, suc, ◌+◌, ◌-◌, ◌*◌, ◌/◌, ◌%◌, ◌≤◌, ◌<◌, String, ◌≡◌, refl, sym, ap, ◌∙◌, subst, ◌≢◌, ◌↔◌,
  ◌⊎◌, inl, inr, Bool, true, false, not, ◌&&◌, ◌||◌, Option, none, some, List, [], ◌∷◌, ◌++◌, map,
  foldl, append-nil, append_assoc, arith, Str, codes, str_eq, str_lt, str_eq→eq, str_eq_refl,
  ne→str_eq, ltb, leb, ◌==◌, if◌then◌else◌, ltb→lt, lt→ltb, leb→le, le→leb, lt→leb_false, eq→==,
  ne→==, ==→eq, Bool-cases, Option-cases, length, take, drop, length-append, take-length_append,
  drop-length_append, take-all, length-drop-le,
}
use cli_cpp.Prelude.Int.{ℤ, pos, negsuc, ltb_ℤ, eqb_ℤ, pos_part, neg_part}
use cli_cpp.CppString.{npos, find, replace, decimal, contains}
use cli_cpp.Timer
use cli_cpp.Timer.{Timer, Verdict, timed_out, scheduled, failed, timer_event}
use cli_cpp.Handler.{Settings, SslCall, Connect, connect, connection_options, configure_ssl}

-- What is put on the work queue.
pub data Task : Type 0 where
  timer_task check_task : Task

pub data Effect (M : Type 0) : Type 0 where
  connects : Connect → List SslCall → Effect M
  opens_sender : Str → List Str → Effect M
  schedules : ℕ → Task → Effect M
  sends : M → Effect M
  prints : Str → M → Effect M
  closes_connection : Effect M
  exits : ℕ → Effect M
  throws : Str → Effect M

-- Whether the program ends: it exits, or an exception leaves the container.
abbrev pub is_end : {M : Type 0} → Effect M → Bool
is_end (exits code) = true
is_end (throws what) = true
is_end e = false

abbrev pub ends : {M : Type 0} → List (Effect M) → Bool
ends [] = false
ends (e ∷ es) = is_end e || ends es

pub record Sender (M : Type 0) : Type 0 where
  pub settings : Settings
  pub timer : Timer
  pub ready : Bool
  pub count : ℤ
  pub duration_time : ℤ
  pub duration_mode : Str
  pub sent : ℕ
  pub confirmed_sent : ℕ
  pub m : M
  -- in milliseconds
  pub interval : ℕ

-- The calls that proton makes, with what the handler then reads of it.
pub data Event : Type 0 where
  container_start : Event
  sendable : Event
  check_fires : ℕ → Event
  timer_fires : Event
  tracker_accept tracker_reject : Event
  transport_close : Event
  transport_error connection_error : Str → Event

-- The constructor; the message is the default one.
unfoldable pub create : {M : Type 0} → Settings → ℤ → ℤ → Str → M → Sender M
create settings timeout duration_time duration_mode m = record {
  settings = settings;
  timer = Timer.create timeout (codes "timeout");
  ready = false;
  count = pos 1;
  duration_time = duration_time;
  duration_mode = duration_mode;
  sent = 0;
  confirmed_sent = 0;
  m = m;
  interval = 0;
}

unfoldable pub set_count : {M : Type 0} → ℤ → Sender M → Sender M
set_count n s = record s { count = n }

unfoldable pub set_message : {M : Type 0} → M → Sender M → Sender M
set_message m s = record s { m = m }

-- The sender as SendingClient::run starts it: with its message and its count.
unfoldable pub prepare : {M : Type 0} → Settings → ℤ → ℤ → Str → M → M → ℤ → Sender M
unfolding create set_count set_message
prepare settings timeout duration_time duration_mode none_yet msg n =
    set_count n (set_message msg (create settings timeout duration_time duration_mode none_yet))

-- The calls of on_container_start that schedule the first check.
first_check : {M : Type 0} → Sender M → List (Effect M)
first_check s =
    if ltb_ℤ (pos 0) s.duration_time && str_eq s.duration_mode (codes "after-send")
    then schedules 0 check_task ∷ []
    else if ltb_ℤ (pos 0) s.duration_time && str_eq s.duration_mode (codes "before-send")
    then schedules s.interval check_task ∷ []
    else schedules 0 check_task ∷ []

start_interval : {M : Type 0} → Sender M → ℕ
start_interval s =
    if ltb_ℤ (pos 0) s.duration_time && ltb_ℤ (pos 0) s.count
    then pos_part s.duration_time * 1000 / pos_part s.count
    else s.interval

unfoldable pub on_container_start : {M : Type 0} → Sender M → Sender M × List (Effect M)
unfolding first_check start_interval
on_container_start s =
    let s' = record s { interval = start_interval s } in
    let caps = if s.settings.is_topic then codes "topic" ∷ [] else [] in
    (
      s',
      connects (connect s.settings (connection_options s.settings)) (configure_ssl s.settings)
          ∷ opens_sender s.settings.broker_url.path caps
          ∷ schedules 0 timer_task
          ∷ first_check s',
    )

-- timerEvent
unfoldable pub on_timer : {M : Type 0} → Sender M → Sender M × List (Effect M)
on_timer s = elim (timer_event s.timer) [
  | timed_out ↦ (s, exits 0 ∷ [])
  | failed e ↦ (s, throws e ∷ [])
  | scheduled t ↦ (record s { timer = t }, schedules 1000 timer_task ∷ [])
]

module _ {M : Type 0} (text : M → Option Str) (set_text : M → Str → M) where
  -- The first %d of a text body becomes the number.
  unfoldable pub instantiate : M → ℕ → M
  instantiate m n = elim (text m) [
    | none ↦ m
    | some body ↦
        let percent_position = find body (codes "%d") 0 in
        if percent_position == npos
        then m
        else set_text m (replace body percent_position 2 (decimal n))
  ]

  log_message : Str → M → List (Effect M)
  log_message format m =
      if str_eq format (codes "dict") || str_eq format (codes "interop")
      then prints format m ∷ []
      else []

  unfoldable pub send : Sender M → Sender M × List (Effect M)
  unfolding log_message
  send s =
      let message_to_send = instantiate s.m s.sent in
      (
        record s { sent = s.sent + 1; timer = Timer.reset s.timer; ready = false },
        sends message_to_send ∷ log_message s.settings.log_msgs message_to_send,
      )

  unfoldable pub on_sendable : Sender M → Sender M × List (Effect M)
  on_sendable s = if s.ready then send s else (s, [])

  unfoldable pub check_if_can_send : ℕ → Sender M → Sender M × List (Effect M)
  check_if_can_send credit s =
      if ltb_ℤ (pos s.sent) s.count
      then (let reschedule = schedules s.interval check_task in
          if ltb 0 credit
          then (let r = send s in (r.0, reschedule ∷ r.1))
          else (record s { ready = true }, reschedule ∷ []))
      else (s, [])

unfoldable pub on_tracker_accept : {M : Type 0} → Sender M → Sender M × List (Effect M)
on_tracker_accept s =
    let s' = record s { confirmed_sent = s.confirmed_sent + 1 } in
    (s', if eqb_ℤ (pos s'.confirmed_sent) s'.count then closes_connection ∷ [] else [])

unfoldable pub on_tracker_reject : {M : Type 0} → Sender M → Sender M × List (Effect M)
on_tracker_reject s = (s, exits 1 ∷ [])

unfoldable pub on_transport_close : {M : Type 0} → Sender M → Sender M × List (Effect M)
on_transport_close s =
    (s, if str_eq s.settings.conn_reconnect (codes "false") then exits 1 ∷ [] else [])

unfoldable pub on_transport_error : {M : Type 0} → Str → Sender M → Sender M × List (Effect M)
on_transport_error what s = (s, if contains what (codes "unauthorized") then exits 1 ∷ [] else [])

unfoldable pub on_connection_error : {M : Type 0} → Str → Sender M → Sender M × List (Effect M)
on_connection_error what s =
    (s, if contains what (codes "Unable to validate user") then exits 1 ∷ [] else [])

module _ {M : Type 0} (text : M → Option Str) (set_text : M → Str → M) where
  unfoldable pub step : Sender M → Event → Sender M × List (Effect M)
  step s container_start = on_container_start s
  step s sendable = on_sendable text set_text s
  step s (check_fires credit) = check_if_can_send text set_text credit s
  step s timer_fires = on_timer s
  step s tracker_accept = on_tracker_accept s
  step s tracker_reject = on_tracker_reject s
  step s transport_close = on_transport_close s
  step s (transport_error what) = on_transport_error what s
  step s (connection_error what) = on_connection_error what s

  -- The handlers, one after another, with all that they call, up to a handler that ends the program.
  unfoldable pub run : Sender M → List Event → Sender M × List (Effect M)
  run s [] = (s, [])
  run s (e ∷ es) =
      let r = step s e in let rest = run r.0 es in if ends r.1 then r else (rest.0, r.1 ++ rest.1)
