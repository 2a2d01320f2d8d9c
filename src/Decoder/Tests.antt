-- ===== src/Decoder/Tests.antt =====
-- The printing of src/api/qpid-proton/reactor/formatter/ReactorDecoder.cpp on a short message.
use mathlib.Core.Option
use cli_cpp.Prelude.{◌≡◌, refl, none, some, [], ◌∷◌, codes, true, false, arith, str_eq}
use cli_cpp.Prelude.Int.{pos}
use cli_cpp.CppString.{decimal}
use cli_cpp.Optparse.Numbers.{print_long}
use cli_cpp.Writer.Dict.{dict_writer}
use cli_cpp.Writer.Upstream.{upstream_writer}
use cli_cpp.Decoder.{
  MessageId, Message, number, leaf, map_of, nested_list, print_dict, print_upstream, decode_leaf,
  decode_element,
}
use cli_cpp.Decoder.Dictionary.{dictionary, upstream, content_text}
use cli_cpp.Decoder.Printed.{print_dict-dictionary, print_upstream-upstream}

abbrev no_id : MessageId
no_id = record { is_empty = true; as_uint64 = none; as_string = none; as_uuid = none }

abbrev short_message : Message
short_message = record {
  delivery_count = 1;
  reply_to = [];
  subject = codes "it's";
  content_type = [];
  user = [];
  id = no_id;
  correlation_id = record {
    is_empty = false;
    as_uint64 = none;
    as_string = some (codes "c");
    as_uuid = none;
  };
  priority = 4;
  durable = true;
  ttl = pos 10;
  properties = (codes "p", number (codes "1")) ∷ [];
  body = map_of ((codes "a", leaf (number (codes "1"))) ∷ (codes "b", nested_list true) ∷ []);
}

print_dict-dictionary_example :
    print_dict dict_writer short_message []
    ≡ Option.map
        (λ c. dictionary short_message c)
        (content_text (codes "[") (codes "]") (codes ": ") short_message.body)
print_dict-dictionary_example = print_dict-dictionary short_message [] (omega arith)

print_upstream-upstream_example :
    print_upstream upstream_writer short_message []
    ≡ Option.map
        (λ c. upstream short_message c)
        (content_text (codes "{") (codes "}") [] short_message.body)
print_upstream-upstream_example = print_upstream-upstream short_message [] (omega arith)

-- A quote in the subject is not escaped, and the list in the map has no text.
short_text :
    Option.map
      (λ c. dictionary short_message c)
      (content_text (codes "[") (codes "]") (codes ": ") short_message.body)
    ≡ some (
        codes
          "{'redelivered': True, 'reply_to': None, 'subject': 'it's', 'content_type': None, 'user_id': None, 'id': None, 'correlation_id': 'c', 'priority': 4, 'durable': True, 'ttl': 10,  'properties': {'p': 1}, 'content': {'a': 1, 'b': }}")
unfolding decode_element decode_leaf print_long decimal str_eq
short_text = refl
