-- ===== src/Connector.antt =====
-- ConnectorHandler: src/api/qpid-proton/reactor/handler/ConnectorHandler.cpp, its header and
-- ObjectControl.h, and the options that src/api/qpid-proton/reactor/ConnectingClient.cpp turns into
-- the object control. The connection, the session, the sender and the receiver are handles of
-- proton, of which the handler only asks whether they have been set; the calls that it makes of proton are its
-- effects, in their order.
pub mod Objects
pub mod Timeout
mod Tests
use cli_cpp.Prelude.{
  ℕ, zero, suc, ◌+◌, ◌-◌, ◌*◌, ◌/◌, ◌%◌, ◌≤◌, ◌<◌, String, ◌≡◌, refl, sym, ap, ◌∙◌, subst, ◌≢◌, ◌↔◌,
  ◌⊎◌, inl, inr, Bool, true, false, not, ◌&&◌, ◌||◌, Option, none, some, List, [], ◌∷◌, ◌++◌, map,
  foldl, append-nil, append_assoc, arith, Str, codes, str_eq, str_lt, str_eq→eq, str_eq_refl,
  ne→str_eq, str_eq-false_sym, ltb, leb, ◌==◌, if◌then◌else◌, ltb→lt, lt→ltb, leb→le, le→leb,
  lt→leb_false, eq→==, ne→==, ==→eq, Bool-cases, Option-cases, length, take, drop, length-append,
  take-length_append, drop-length_append, take-all, length-drop-le, select, select-append, cons?,
}
use cli_cpp.CppString.{npos, find}
use cli_cpp.Prelude.Int.{ℤ, pos}
use cli_cpp.Timer.{Timer, timer_event, timed_out, scheduled, failed}
use cli_cpp.Handler.{Settings, SslCall, Connect, connection_options, configure_ssl, connect}
use cli_cpp.Optparse.{Values, value_of}

-- The enum ObjectControl, and the test of a bit of a number.
abbrev pub connection_bit : ℕ
connection_bit = 1

abbrev pub session_bit : ℕ
session_bit = 2

abbrev pub sender_bit : ℕ
sender_bit = 4

abbrev pub receiver_bit : ℕ
receiver_bit = 8

unfoldable pub has_bit : ℕ → ℕ → Bool
has_bit k n = n / k % 2 == 1

-- n |= k for a bit k
unfoldable pub or_bit : ℕ → ℕ → ℕ
unfolding has_bit
or_bit k n = if has_bit k n then n else n + k

-- ConnectingClient::setConnectionOptions
unfoldable pub object_control_of : Values → ℕ
unfolding or_bit
object_control_of options =
    let value = value_of (codes "obj-ctrl") options in
    let c1 = if find value (codes "C") 0 == npos then 0 else or_bit connection_bit 0 in
    let c2 = if find value (codes "E") 0 == npos then c1 else or_bit session_bit c1 in
    let c3 = if find value (codes "S") 0 == npos then c2 else or_bit sender_bit c2 in
    if find value (codes "R") 0 == npos then c3 else or_bit receiver_bit c3

pub data Handle : Type 0 where
  session_handle sender_handle receiver_handle connection_handle : Handle

pub data Effect : Type 0 where
  connecting : List SslCall → Connect → Effect
  opened : Handle → Str → Effect
  closed : Handle → Effect
  schedule_now schedule_second : Effect
  exited : ℕ → Effect
  thrown : Str → Effect

-- The class ConnectorHandler. A handle is set once its object has been opened.
pub record Connector : Type 0 where
  pub settings : Settings
  pub timer : Timer
  pub count : ℤ
  pub object_control : ℕ
  pub has_connection : Bool
  pub has_session : Bool
  pub has_sender : Bool
  pub has_receiver : Bool

-- ConnectorHandler(...)
unfoldable pub create : Settings → Timer → Connector
create s t = record {
  settings = s;
  timer = t;
  count = pos 0;
  object_control = connection_bit;
  has_connection = false;
  has_session = false;
  has_sender = false;
  has_receiver = false;
}

-- setObjectControl
unfoldable pub set_object_control : ℕ → Connector → Connector
set_object_control control h = record h { object_control = control }

-- on_container_start
unfoldable pub on_container_start : Connector → Connector × List Effect
on_container_start h =
    let s = h.settings in
    (
      record h { has_connection = true },
      connecting (if s.conn_use_config_file then [] else configure_ssl s)
            (connect s (record (connection_options s) { max_frame_size = some s.max_frame_size }))
          ∷ [],
    )

-- One of the blocks of on_connection_open.
abbrev open_if : Bool → Handle → Str → List Effect
open_if wanted h path = if wanted then opened h path ∷ [] else []

-- on_connection_open
unfoldable pub on_connection_open : Connector → Connector × List Effect
on_connection_open h =
    let c = h.object_control in
    let path = h.settings.broker_url.path in
    (
      record h {
        has_session = has_bit session_bit c || h.has_session;
        has_sender = has_bit sender_bit c || h.has_sender;
        has_receiver = has_bit receiver_bit c || h.has_receiver;
      },
      open_if (has_bit session_bit c) session_handle []
          ++ (open_if (has_bit sender_bit c) sender_handle path
              ++ (open_if (has_bit receiver_bit c) receiver_handle path ++ schedule_now ∷ [])),
    )

-- One of the blocks of closeObjects.
abbrev close_if : Bool → Handle → List Effect
close_if there h = if there then closed h ∷ [] else []

-- closeObjects. All handles are of one connection, which is closed at the end, be it by a handle's or by
-- the handler's own.
unfoldable pub close_objects : Connector → List Effect
close_objects h =
    let c = h.object_control in
    close_if (has_bit receiver_bit c && h.has_receiver) receiver_handle
    ++ (close_if (has_bit sender_bit c && h.has_sender) sender_handle
        ++ (close_if (has_bit session_bit c && h.has_session) session_handle
            ++ closed connection_handle ∷ []))

-- timerEvent
unfoldable pub on_timer : Connector → Connector × List Effect
on_timer h = elim (timer_event h.timer) [
  | timed_out ↦ (h, close_objects h)
  | scheduled t ↦ (record h { timer = t }, schedule_second ∷ [])
  | failed e ↦ (h, thrown e ∷ [])
]

-- on_transport_error and on_transport_close
unfoldable pub on_transport_error : Connector → List Effect
on_transport_error h =
    if str_eq h.settings.conn_reconnect (codes "false") then exited 1 ∷ [] else []

unfoldable pub on_transport_close : Connector → List Effect
on_transport_close h =
    if str_eq h.settings.conn_reconnect (codes "false") then exited 1 ∷ [] else []

-- on_connection_error, with what the connection says
unfoldable pub on_connection_error : Str → List Effect
on_connection_error what =
    if find what (codes "Unable to validate user") 0 == npos then [] else exited 1 ∷ []

-- on_session_error
unfoldable pub on_session_error : Connector → List Effect
on_session_error h = close_objects h
