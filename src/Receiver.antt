-- ===== src/Receiver.antt =====
-- ReceiverHandler: src/api/qpid-proton/reactor/handler/ReceiverHandler.cpp and ReceiverHandler.h.
-- A handler takes the state to the next one and lists its calls of proton and of exit, in order.
-- The message type of proton is a parameter with the getter `reply_to`, the setter `set_to` and what the decoder
-- reads of it; the fresh uuid is an argument. The message counter only grows from 0 and is a natural number; where the
-- int would overflow, the call is `overflows`. A receiver that listens has no link of its own: what its handlers call on
-- the empty recv is `uses_no_link`. Both are undefined behaviour, where the model stops. The waiting of sleep4next is a call with
-- its arguments.
pub mod Handled
pub mod Actions
pub mod Closing
pub mod Replies
pub mod Start
mod Tests
use cli_cpp.Prelude.{
  ℕ, zero, suc, ◌+◌, ◌-◌, ◌*◌, ◌/◌, ◌%◌, ◌≤◌, ◌<◌, String, ◌≡◌, refl, sym, ap, ◌∙◌, subst, ◌≢◌, ◌↔◌,
  ◌⊎◌, inl, inr, Bool, true, false, not, ◌&&◌, ◌||◌, Option, none, some, List, [], ◌∷◌, ◌++◌, map,
  foldl, append-nil, append_assoc, arith, Str, codes, str_eq, str_lt, str_eq→eq, str_eq_refl,
  ne→str_eq, ltb, leb, ◌==◌, if◌then◌else◌, ltb→lt, lt→ltb, leb→le, le→leb, lt→leb_false, eq→==,
  ne→==, ==→eq, Bool-cases, Option-cases, length, take, drop, length-append, take-length_append,
  drop-length_append, take-all, length-drop-le, select, select-append, cons?,
}
use cli_cpp.Prelude.Int.{ℤ, pos, negsuc, ltb_ℤ, eqb_ℤ, pos_part, neg_part}
use cli_cpp.CppString.{contains}
use cli_cpp.Optparse.Numbers.{print_long}
use cli_cpp.Writer.Dict.{dict_writer}
use cli_cpp.Decoder.{Message, print_dict}
use cli_cpp.Timer
use cli_cpp.Timer.{Timer, Verdict, timed_out, scheduled, failed, timer_event}
use cli_cpp.Handler.{
  Settings, SslCall, Connect, ConnectionOptions, connect, connection_options, configure_ssl,
}

-- source_options and receiver_options, as far as the handler sets them. `durable` is the pair of
-- UNSETTLED_STATE and NEVER; the selector is the one entry of the filter map.
pub record ReceiverOptions : Type 0 where
  pub copies : Bool
  pub selector : Option Str
  pub capabilities : List Str
  pub durable : Bool
  pub credit_window : Option ℤ
  pub name : Option Str

pub data Effect (M : Type 0) : Type 0 where
  sets_ssl : List SslCall → Effect M
  connects : Connect → Effect M
  listens : Str → ConnectionOptions → Effect M
  opens_receiver : Str → ReceiverOptions → Effect M
  schedules_timer : ℕ → Effect M
  prints : Str → M → Effect M
  sleeps : ℤ → ℤ → ℕ → Effect M
  accepts rejects releases : Effect M
  opens_sender : Str → Effect M
  replies : Str → M → Effect M
  schedules_drain drains : Effect M
  detaches closes_receiver closes_connection : Effect M
  exits : ℕ → Effect M
  throws : Str → Effect M
  throws_conversion_error : Effect M
  divides_by_zero overflows uses_no_link : Effect M

-- Whether the program ends or is undefined from here on.
abbrev pub is_end : {M : Type 0} → Effect M → Bool
is_end (exits code) = true
is_end (throws what) = true
is_end throws_conversion_error = true
is_end divides_by_zero = true
is_end overflows = true
is_end uses_no_link = true
is_end e = false

abbrev pub ends : {M : Type 0} → List (Effect M) → Bool
ends [] = false
ends (e ∷ es) = is_end e || ends es

pub record Receiver : Type 0 where
  pub settings : Settings
  pub timer : Timer
  pub durable_subscriber : Bool
  pub subscriber_unsubscribe : Bool
  pub durable_subscriber_prefix : Str
  pub durable_subscriber_name : Str
  pub shared_subscriber : Bool
  pub msg_action : Str
  pub msg_action_size : ℤ
  pub msg_received_cnt : ℕ
  pub process_reply_to : Bool
  pub browse : Bool
  pub count : ℤ
  pub duration_time : ℤ
  pub duration_mode : Str
  pub recv_listen : Str
  pub recv_listen_port : ℤ
  pub recv_credit_window : ℤ
  pub recv_drain_after_credit_window : Bool
  pub selector : Option Str
  -- the keys of the map of senders
  pub senders : List Str

-- timerEvent: both ways out exit with 0.
unfoldable pub on_timer : {M : Type 0} → Receiver → Receiver × List (Effect M)
on_timer s = elim (timer_event s.timer) [
  | timed_out ↦ (s, exits 0 ∷ [])
  | failed e ↦ (s, throws e ∷ [])
  | scheduled t ↦ (record s { timer = t }, schedules_timer 1000 ∷ [])
]

unfoldable pub create_subscription_name : Str → Str → Receiver → Receiver
create_subscription_name uuid custom_prefix s =
    if str_eq s.durable_subscriber_name []
    then record s {
      durable_subscriber_name =
          (if str_eq custom_prefix [] then codes "qpid-proton-cpp-" else custom_prefix) ++ uuid;
    }
    else s

is_durable : Receiver → Bool
is_durable s = s.durable_subscriber || s.subscriber_unsubscribe

capabilities : Receiver → List Str
capabilities s =
    if s.settings.is_topic
    then codes "topic" ∷ (if s.shared_subscriber then codes "shared" ∷ codes "global" ∷ [] else [])
    else []

credit_window : Receiver → Option ℤ
credit_window s =
    if ltb_ℤ (pos 0) s.duration_time && eqb_ℤ s.recv_credit_window (negsuc 0)
    then some (pos 1)
    else if eqb_ℤ s.recv_credit_window (negsuc 0)
    then none
    else some s.recv_credit_window

receiver_options : Receiver → ReceiverOptions
unfolding is_durable capabilities credit_window
receiver_options s = record {
  copies = s.browse;
  selector = s.selector;
  capabilities = capabilities s;
  durable = is_durable s;
  credit_window = credit_window s;
  name = if is_durable s then some s.durable_subscriber_name else none;
}

-- Whether the receiver waits for a peer instead of connecting to a broker.
unfoldable pub is_listening : Receiver → Bool
is_listening s = not s.browse && str_eq s.recv_listen (codes "true")

start_link : {M : Type 0} → Receiver → List (Effect M)
unfolding receiver_options is_listening print_long
start_link s =
    if is_listening s
    then listens (codes "0.0.0.0:" ++ print_long s.recv_listen_port) (connection_options s.settings)
      ∷ []
    else connects (connect s.settings (connection_options s.settings))
      ∷ opens_receiver s.settings.broker_url.path (receiver_options s)
      ∷ []

named : Str → Receiver → Receiver
unfolding create_subscription_name is_durable
named uuid s =
    if s.settings.is_topic && is_durable s
    then create_subscription_name uuid s.durable_subscriber_prefix s
    else s

unfoldable pub on_container_start : {M : Type 0} → Str → Receiver → Receiver × List (Effect M)
unfolding named start_link
on_container_start uuid s =
    let s' = named uuid s in
    (
      s',
      sets_ssl (configure_ssl s'.settings)
          ∷ (start_link s'
              ++ (if s'.subscriber_unsubscribe && not (str_eq s'.durable_subscriber_name [])
                  then (if is_listening s'
                      then uses_no_link ∷ []
                      else closes_receiver ∷ closes_connection ∷ [])
                  else schedules_timer 0 ∷ [])),
    )

unfoldable pub do_message_action : {M : Type 0} → Receiver → List (Effect M)
do_message_action s =
    if str_eq s.msg_action (codes "ack")
    then accepts ∷ []
    else if str_eq s.msg_action (codes "reject")
    then rejects ∷ []
    else if str_eq s.msg_action (codes "release")
    then releases ∷ []
    else []

-- senders.find(address) != senders.end()
unfoldable pub has_sender : Str → List Str → Bool
has_sender a [] = false
has_sender a (b ∷ bs) = str_eq b a || has_sender a bs

-- `msg_received_cnt % msg_action_size`; `none` is a division by zero. The sign of the divisor
-- does not matter for the test against 0.
unfoldable pub batch_rest : ℕ → ℤ → Option ℕ
batch_rest n size = let d = pos_part size + neg_part size in if d == 0 then none else some (n % d)

module _ {M : Type 0} (reply_to : M → Str) (set_to : M → Str → M) (decoded : M → Message) where
  unfoldable pub do_process_reply_to : M → Receiver → Receiver × List (Effect M)
  unfolding has_sender is_listening
  do_process_reply_to m s =
      let a = reply_to m in
      if has_sender a s.senders
      then (s, replies a (set_to m a) ∷ [])
      else if is_listening s
      then (s, uses_no_link ∷ [])
      else (record s { senders = a ∷ s.senders }, opens_sender a ∷ replies a (set_to m a) ∷ [])

  -- Whether printMessage throws a conversion_error; printMessageInterop catches its exceptions.
  unfoldable pub print_fails : M → Receiver → Bool
  print_fails m s =
      str_eq s.settings.log_msgs (codes "dict")
      && elim (print_dict dict_writer (decoded m) []) [ none ↦ true | some text ↦ false ]

  -- The first part of on_message: the log and the wait before the action.
  pub before_action : M → Receiver → List (Effect M)
  before_action m s =
      (if str_eq s.settings.log_msgs (codes "dict") || str_eq s.settings.log_msgs (codes "interop")
        then prints s.settings.log_msgs m ∷ []
        else [])
      ++ (if ltb_ℤ (pos 0) s.duration_time && str_eq s.duration_mode (codes "after-receive")
          then sleeps s.count s.duration_time s.msg_received_cnt ∷ []
          else [])

  after_action : Receiver → List (Effect M)
  after_action s =
      if ltb_ℤ (pos 0) s.duration_time && str_eq s.duration_mode (codes "after-receive-action")
      then sleeps s.count s.duration_time s.msg_received_cnt ∷ []
      else []

  unfoldable pub reply_part : M → Receiver → Receiver × List (Effect M)
  unfolding do_process_reply_to
  reply_part m s =
      if s.process_reply_to && not (str_eq (reply_to m) [])
      then do_process_reply_to m s
      else (s, [])

  drain_part : Receiver → List (Effect M)
  drain_part s =
      if s.recv_drain_after_credit_window && eqb_ℤ (pos s.msg_received_cnt) s.recv_credit_window
      then schedules_drain ∷ []
      else []

  -- The last part of on_message: close after the last message, else restart the timer.
  unfoldable pub close_part : Receiver → Receiver × List (Effect M)
  close_part s =
      if not s.process_reply_to && eqb_ℤ (pos s.msg_received_cnt) s.count
      then (
        s,
        (if s.durable_subscriber then detaches else closes_receiver) ∷ closes_connection ∷ [],
      )
      else (record s { timer = Timer.reset s.timer }, [])

  -- What follows the action.
  unfoldable pub finish : M → Receiver → Receiver × List (Effect M)
  unfolding after_action drain_part
  finish m s =
      let r = reply_part m s in
      let c = close_part r.0 in
      if ends r.1
      then (r.0, after_action s ++ r.1)
      else (c.0, after_action s ++ (r.1 ++ (drain_part r.0 ++ c.1)))

  -- on_message of a message that is counted and that the log can print.
  unfoldable pub counted_message : M → Receiver → Receiver × List (Effect M)
  unfolding before_action
  counted_message m s' = elim (batch_rest s'.msg_received_cnt s'.msg_action_size) [
    | none ↦ (s', before_action m s' ++ divides_by_zero ∷ [])
    | some r ↦
        let f = finish m s' in
        (f.0, before_action m s' ++ ((if r == 0 then do_message_action s' else []) ++ f.1))
  ]

  unfoldable pub on_message : M → Receiver → Receiver × List (Effect M)
  unfolding print_fails counted_message
  on_message m s =
      let s' = record s { msg_received_cnt = s.msg_received_cnt + 1 } in
      if s.msg_received_cnt == 2147483647
      then (s, overflows ∷ [])
      else if print_fails m s'
      then (s', throws_conversion_error ∷ [])
      else counted_message m s'

-- drain
unfoldable pub drain : {M : Type 0} → Receiver → Receiver × List (Effect M)
unfolding is_listening
drain s = (s, if is_listening s then uses_no_link ∷ [] else drains ∷ [])

unfoldable pub on_transport_close : {M : Type 0} → Receiver → Receiver × List (Effect M)
on_transport_close s = (
  s,
  if str_eq s.settings.conn_reconnect (codes "false")
      then exits 1 ∷ []
      else if eqb_ℤ (pos s.msg_received_cnt) s.count
      then exits 0 ∷ []
      else [],
)

unfoldable pub on_transport_error : {M : Type 0} → Str → Receiver → Receiver × List (Effect M)
on_transport_error what s = (s, if contains what (codes "unauthorized") then exits 1 ∷ [] else [])

unfoldable pub on_connection_error : {M : Type 0} → Str → Receiver → Receiver × List (Effect M)
on_connection_error what s =
    (s, if contains what (codes "Unable to validate user") then exits 1 ∷ [] else [])

-- The calls that proton makes once the container has started.
pub data Event (M : Type 0) : Type 0 where
  message : M → Event M
  timer_fires drain_fires transport_close : Event M
  transport_error connection_error : Str → Event M

module _ {M : Type 0} (reply_to : M → Str) (set_to : M → Str → M) (decoded : M → Message) where
  unfoldable pub step : Receiver → Event M → Receiver × List (Effect M)
  step s (message m) = on_message reply_to set_to decoded m s
  step s timer_fires = on_timer s
  step s drain_fires = drain s
  step s transport_close = on_transport_close s
  step s (transport_error what) = on_transport_error what s
  step s (connection_error what) = on_connection_error what s

  -- The handlers, one after another, up to one that ends the program.
  unfoldable pub run : Receiver → List (Event M) → Receiver × List (Effect M)
  run s [] = (s, [])
  run s (e ∷ es) =
      let r = step s e in let rest = run r.0 es in if ends r.1 then r else (rest.0, r.1 ++ rest.1)

  -- The start of the container, and the handlers after it.
  unfoldable pub start : Str → Receiver → List (Event M) → Receiver × List (Effect M)
  start uuid s es =
      let r = on_container_start uuid s in
      let rest = run r.0 es in if ends r.1 then r else (rest.0, r.1 ++ rest.1)
