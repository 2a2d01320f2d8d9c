-- ===== src/Client/Receiving.antt =====
-- ReceivingClient: what `run` of src/api/qpid-proton/reactor/ReceivingClient.cpp makes of the validated options: the
-- receiver, and the name of the container that runs it.
use cli_cpp.Prelude.{
  String, Bool, not, ◌&&◌, Option, none, some, [], ◌++◌, Str, codes, str_eq, if◌then◌else◌,
}
use cli_cpp.Prelude.Int.{ℤ, pos, negsuc}
use cli_cpp.CppString.{to_lower}
use cli_cpp.Timer
use cli_cpp.Optparse.{Values, value_of, is_set}
use cli_cpp.Optparse.Numbers.{atoi}
use cli_cpp.Cli.Validate.{get_bool}
use cli_cpp.Handler.{Settings}
use cli_cpp.Receiver.{Receiver}
use cli_cpp.Client.{settings_of, given_or, ◌>>=◌}
use cli_cpp.Client.Sending.{int_given_or}

-- A switch that is on if the option is true in any case.
unfoldable pub is_true : String → Values → Bool
is_true d vs = is_set (codes d) vs && str_eq (to_lower (value_of (codes d) vs)) (codes "true")

-- An option that atoi reads if it is given.
unfoldable pub atoi_or : String → ℤ → Values → ℤ
atoi_or d other vs = if is_set (codes d) vs then atoi (value_of (codes d) vs) else other

-- setSelector, for a selector that is not empty
unfoldable pub selector_of : Values → Option Str
unfolding given_or
selector_of vs =
    let selector = given_or "recv-selector" [] vs in
    if str_eq selector [] then none else some selector

-- The name of the container, of which `none` lets proton choose; the uuid is fresh.
unfoldable pub container_id : Str → Values → Option Str
unfolding given_or
container_id uuid vs =
    let conn_clientid = given_or "conn-clientid" [] vs in
    let conn_clientid_prefix = given_or "conn-clientid-prefix" [] vs in
    if not (str_eq conn_clientid [])
    then some conn_clientid
    else if not (str_eq conn_clientid_prefix [])
    then some (conn_clientid_prefix ++ uuid)
    else none

-- The constructor of ReceiverHandler, of the settings and the receiver's own options.
unfoldable pub handler_of : Settings → Values → Receiver
unfolding is_true atoi_or selector_of given_or int_given_or
handler_of settings vs = record {
  settings = settings;
  timer = Timer.create (int_given_or "timeout" (negsuc 0) vs) (codes "timeout");
  durable_subscriber = is_true "durable-subscriber" vs;
  subscriber_unsubscribe = is_true "subscriber-unsubscribe" vs;
  durable_subscriber_prefix = given_or "durable-subscriber-prefix" [] vs;
  durable_subscriber_name = given_or "durable-subscriber-name" [] vs;
  shared_subscriber = is_true "shared-subscriber" vs;
  msg_action = given_or "msg-action" (codes "no-action") vs;
  msg_action_size = atoi_or "msg-action-size" (pos 1) vs;
  msg_received_cnt = 0;
  process_reply_to = get_bool (codes "process-reply-to") vs;
  browse = get_bool (codes "recv-browse") vs;
  count = int_given_or "count" (pos 0) vs;
  duration_time = int_given_or "duration" (pos 0) vs;
  duration_mode = given_or "duration-mode" (codes "after-receive") vs;
  recv_listen =
      if is_set (codes "recv-listen") vs
      then to_lower (value_of (codes "recv-listen") vs)
      else codes "false";
  recv_listen_port = atoi_or "recv-listen-port" (pos 5672) vs;
  recv_credit_window = atoi_or "recv-credit-window" (negsuc 0) vs;
  recv_drain_after_credit_window = is_set (codes "recv-drain-after-credit-window") vs;
  selector = selector_of vs;
  senders = [];
}

-- The container's name and the receiver; `none` is an exception.
unfoldable pub receiver_of : ℤ → Str → Values → Option (Option Str × Receiver)
unfolding container_id handler_of
receiver_of forever_ms uuid vs = do
  settings ← settings_of forever_ms vs
  some (container_id uuid vs, handler_of settings vs)
