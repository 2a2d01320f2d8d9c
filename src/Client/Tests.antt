-- ===== src/Client/Tests.antt =====
-- What the clients of src/api/qpid-proton/reactor prepare from a command line with a broker URL.
use cli_cpp.Prelude.{
  ◌≡◌, refl, some, none, [], ◌∷◌, arith, codes, str_eq, Str, List, ℕ, ◌≤◌, if◌then◌else◌, true,
  false,
}
use cli_cpp.CppString.{npos, find}
use cli_cpp.CppString.Fields.{fields}
use cli_cpp.Prelude.Int.{negsuc, pos, pos_part}
use cli_cpp.StrMap.{lookup}
use cli_cpp.Uri.{fresh}
use cli_cpp.Uri.Render.{Parts, IsProper, render}
use cli_cpp.Optparse.{Values, value_of, is_set}
use cli_cpp.Optparse.Loop.{done}
use cli_cpp.Cli.Validate.{reject, validate_boolean, validate_modern}
use cli_cpp.Decoder
use cli_cpp.Receiver
use cli_cpp.Receiver.Handled.{completed}
use cli_cpp.Receiver.Start.{started}
use cli_cpp.Sender
use cli_cpp.Sender.Sent.{sent_messages, instances}
use cli_cpp.Client.{prepare}
use cli_cpp.Client.Sending.{Message, Callbacks, no_body, int_given_or, sender_of}
use cli_cpp.Client.Composed.{IsComposed, text, set_text, sender_of-run}
use cli_cpp.Client.Segments.{trimmed, prepare-conn_urls}
use cli_cpp.Client.Prepared.{IsPrepared}

abbrev urls_given : Values
urls_given = record {
  values = (codes "conn-urls", codes "a,,b,") ∷ [];
  append_map = [];
  user_set = [];
}

prepare-conn_urls_example : (prepare (negsuc 0) fresh fresh false urls_given).conn_urls ≡ (
    if is_set (codes "conn-urls") urls_given
    then trimmed (fields b',' (value_of (codes "conn-urls") urls_given))
    else [])
prepare-conn_urls_example = prepare-conn_urls (negsuc 0) fresh fresh false urls_given

abbrev url_parts : Parts
url_parts = record {
  scheme = codes "amqp";
  user = codes "me";
  password = codes "pw";
  host = codes "h";
  port = codes "5672";
  path = codes "q";
  query = codes "x";
  fragment = codes "f";
}

url_parts-IsProper : IsProper url_parts
url_parts-IsProper = ground arith

abbrev url_given : Values
url_given = record {
  values = (codes "broker-url", render url_parts) ∷ [];
  append_map = [];
  user_set = [];
}

no_prefix : find (render url_parts) (codes "topic://") 0 ≡ npos
unfolding find
no_prefix = refl

url_value : value_of (codes "broker-url") url_given ≡ render url_parts
unfolding value_of lookup str_eq
url_value = refl

url_valid : validate_modern url_given ≡ done tt
unfolding validate_modern reject is_set str_eq validate_boolean
url_valid = refl

abbrev no_reply : Str → Str
no_reply m = []

abbrev same_message : Str → Str → Str
same_message m a = m

abbrev one_message : List (Receiver.Event Str)
one_message = Receiver.message (codes "m") ∷ []

abbrev read_message : Str → Decoder.Message
read_message m = record {
  delivery_count = 0;
  reply_to = [];
  subject = [];
  content_type = [];
  user = [];
  id = record { is_empty = true; as_uint64 = none; as_string = none; as_uuid = none };
  correlation_id = record { is_empty = true; as_uint64 = none; as_string = none; as_uuid = none };
  priority = 4;
  durable = false;
  ttl = pos 0;
  properties = [];
  body = Decoder.single (Decoder.string_of m);
}

abbrev first_started : Receiver.Receiver → Receiver.Receiver
first_started s = started no_reply same_message read_message (codes "w") s

abbrev first_run : Receiver.Receiver → List (Receiver.Effect Str)
first_run s = (Receiver.start no_reply same_message read_message (codes "w") s one_message).1

abbrev first_count : Receiver.Receiver → ℕ
first_count s = completed no_reply same_message read_message (first_started s) one_message

abbrev fresh_message : Message
fresh_message = record {
  reply_to = [];
  to = [];
  correlation_id = [];
  content_type = [];
  subject = [];
  id = [];
  ttl = 0;
  user = [];
  priority = 4;
  durable = false;
  group_id = [];
  reply_to_group_id = [];
  group_sequence = pos 0;
  properties = [];
  body = no_body;
}

abbrev two_items : Callbacks
two_items = record { property = codes "k=v;"; list = codes "a;b;"; map = [] }

abbrev one_round : List Sender.Event
one_round = Sender.container_start ∷ Sender.sendable ∷ Sender.check_fires 1 ∷ []

sender_of-run_example :
    (m : Message) × (s : Sender.Sender Message) × (sender_of
        (negsuc 0)
        fresh_message
        two_items
        url_given
      ≡ some s)
    × IsComposed fresh_message two_items url_given m
    × IsPrepared url_parts url_given s.settings
    × (sent_messages (Sender.run text set_text s one_round).1
        ≡ instances text set_text m 0 (Sender.run text set_text s one_round).0.sent)
    × ((Sender.run text set_text s one_round).0.sent
        ≤ pos_part (int_given_or "count" (pos 1) url_given))
sender_of-run_example =
    sender_of-run (negsuc 0) fresh_message two_items url_parts url_given one_round (omega arith)
      (omega arith) (omega arith) url_parts-IsProper no_prefix url_value url_valid

abbrev large_limit : Values
large_limit = record {
  values = (codes "conn-reconnect-limit", codes "4294967297") ∷ [];
  append_map = [];
  user_set = [];
}

limit_is_set : is_set (codes "conn-reconnect-limit") large_limit ≡ true
unfolding is_set str_eq
limit_is_set = refl
