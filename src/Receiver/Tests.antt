-- ===== src/Receiver/Tests.antt =====
-- The receiver of src/api/qpid-proton/reactor/handler/ReceiverHandler.cpp on three messages, which
-- are pairs of a reply-to address and an address.
use cli_cpp.Prelude.{
  ◌/◌, ◌++◌, ℕ, str_eq, ◌≡◌, refl, Bool, true, false, ◌&&◌, none, List, [], ◌∷◌, Str, codes,
  if◌then◌else◌, select,
}
use cli_cpp.Prelude.Int.{pos}
use cli_cpp.Timer
use cli_cpp.Samples.{sample_settings}
use cli_cpp.Receiver.{
  Event, Effect, message, timer_fires, Receiver, start, is_listening, print_fails, step,
  on_container_start, on_message, batch_rest, finish, reply_part, close_part, on_timer,
  do_message_action,
}
use cli_cpp.Decoder.{Message, print_dict, list_of, nested_list, single, string_of}
use cli_cpp.Receiver.Handled.{completed, completes}
use cli_cpp.Receiver.Actions.{outcome, named_outcome, repeat}
use cli_cpp.Receiver.Closing.{closing, receiver_closed, connection_closed}
use cli_cpp.Receiver.Replies.{opening, reply, AllDistinct, rev_onto, answers}
use cli_cpp.Receiver.Start.{
  unsubscribes, started, closing_at, start-outcomes, start-closings, start-replies,
}

abbrev reply_address : Str × Str → Str
reply_address m = m.0

abbrev set_address : Str × Str → Str → Str × Str
set_address m a = (m.0, a)

abbrev sample_receiver : Bool → Receiver
sample_receiver answering = record {
  settings = sample_settings;
  timer = Timer.create (pos 9) (codes "timeout");
  durable_subscriber = false;
  subscriber_unsubscribe = false;
  durable_subscriber_prefix = [];
  durable_subscriber_name = [];
  shared_subscriber = false;
  msg_action = codes "ack";
  msg_action_size = pos 2;
  msg_received_cnt = 0;
  process_reply_to = answering;
  browse = false;
  count = pos 3;
  duration_time = pos 0;
  duration_mode = codes "after-receive";
  recv_listen = codes "false";
  recv_listen_port = pos 5672;
  recv_credit_window = pos 0;
  recv_drain_after_credit_window = false;
  selector = none;
  senders = [];
}

abbrev three_messages : List (Event (Str × Str))
three_messages =
    message (codes "r", codes "q")
    ∷ timer_fires
    ∷ message (codes "r", codes "q")
    ∷ message ([], codes "q")
    ∷ []

abbrev read_message : Str × Str → Message
read_message m = record {
  delivery_count = 0;
  reply_to = m.0;
  subject = [];
  content_type = [];
  user = [];
  id = record { is_empty = true; as_uint64 = none; as_string = none; as_uuid = none };
  correlation_id = record { is_empty = true; as_uint64 = none; as_string = none; as_uuid = none };
  priority = 4;
  durable = false;
  ttl = pos 0;
  properties = [];
  body = single (string_of m.1);
}

abbrev begun : Bool → Receiver
begun answering =
    started reply_address set_address read_message (codes "u") (sample_receiver answering)

abbrev whole : Bool → Receiver × List (Effect (Str × Str))
whole answering =
    start reply_address set_address read_message (codes "u") (sample_receiver answering)
      three_messages

abbrev done_by : Bool → ℕ
done_by answering =
    completed reply_address set_address read_message (begun answering) three_messages

start-outcomes_example : select outcome (whole false).1 ≡ (
    if unsubscribes (begun false) && is_listening (begun false)
    then []
    else repeat (done_by false / 2) (named_outcome (codes "ack")))
start-outcomes_example =
    start-outcomes reply_address set_address read_message 1 (codes "u") (sample_receiver false)
      three_messages refl refl

start-closings_example : select closing (whole false).1 ≡ (
    if unsubscribes (begun false) && is_listening (begun false)
    then []
    else (if unsubscribes (begun false) then receiver_closed ∷ connection_closed ∷ [] else [])
      ++ closing_at (done_by false) (begun false))
start-closings_example =
    start-closings reply_address set_address read_message 1 (codes "u") (sample_receiver false)
      three_messages refl refl

connects_to_broker : is_listening (sample_receiver true) ≡ false
unfolding is_listening str_eq
connects_to_broker = refl

start-replies_example :
    (select reply (whole true).1
      ≡ answers reply_address set_address read_message (begun true) three_messages)
    × ((whole true).0.senders ≡ rev_onto (select opening (whole true).1) [])
    × AllDistinct (whole true).0.senders
start-replies_example =
    start-replies reply_address set_address read_message 1 (codes "u") (sample_receiver true)
      three_messages refl refl connects_to_broker refl

three_done : done_by false ≡ 3
unfolding completed completes print_fails step on_container_start on_message str_eq print_dict
    batch_rest finish reply_part close_part on_timer Timer.timer_event Timer.reset Timer.create
    do_message_action
three_done = refl

-- A nested list that is not of texts cannot be printed, and the message is not completed.
abbrev nested_message : Str × Str → Message
nested_message m = record (read_message m) { body = list_of (nested_list false ∷ []) }

abbrev printing_receiver : Receiver
printing_receiver = record (sample_receiver false) {
  settings = record sample_settings { log_msgs = codes "dict" };
}

unprinted :
    completes reply_address set_address nested_message (codes "r", codes "q") printing_receiver
    ≡ false
unfolding completes print_fails print_dict str_eq
unprinted = refl
