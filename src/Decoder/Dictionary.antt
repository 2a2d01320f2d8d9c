-- ===== src/Decoder/Dictionary.antt =====
-- The text that src/api/qpid-proton/reactor/formatter/ReactorDecoder.cpp writes through
-- src/common/formatter/DictWriter.cpp and UpstreamWriter.cpp, against a description of it.
use mathlib.Core.Option
use mathlib.Core.Option.{some-injective, none-ne-some}
use cli_cpp.Prelude.{
  ℕ, Bool, Option, none, some, List, [], ◌∷◌, ◌++◌, map, Str, codes, str_eq, ltb, if◌then◌else◌,
  length,
}
use cli_cpp.CppString.{decimal}
use cli_cpp.Optparse.Numbers.{print_long}
use cli_cpp.Formatter.Joins.{joined}
use cli_cpp.Decoder.{
  Message, MessageId, Leaf, Element, Body, single, list_of, map_of, other_map, decode_leaf,
  decode_element,
}
use cli_cpp.Decoder.Entries.{texts}

abbrev pub bool_text : Bool → Str
bool_text b = if b then codes "True" else codes "False"

-- A text in quotes, as it is, or None.
abbrev pub quoted : Str → Str
quoted s = if str_eq s [] then codes "None" else codes "'" ++ (s ++ codes "'")

-- An identifier: its number in quotes, else its text, else its uuid, else None.
abbrev pub id_text : MessageId → Str
id_text i = if i.is_empty then codes "None" else elim i.as_uint64 [
  | some n ↦ codes "'" ++ (decimal n ++ codes "'")
  | none ↦ elim i.as_string [
    | some t ↦ quoted t
    | none ↦ elim i.as_uuid [ some t ↦ quoted t | none ↦ codes "None" ]
  ]
]

abbrev pub field_text : Str → Str → Str
field_text name shown = codes "'" ++ (name ++ (codes "': " ++ shown))

-- The fields of the header, each with a separator behind it.
abbrev pub header_text : List (Str × Str) → Str
header_text [] = []
header_text ((name, shown) ∷ l) = field_text name shown ++ (codes ", " ++ header_text l)

abbrev pub header : Message → List (Str × Str)
header m =
    (codes "redelivered", bool_text (ltb 0 m.delivery_count))
    ∷ (codes "reply_to", quoted m.reply_to)
    ∷ (codes "subject", quoted m.subject)
    ∷ (codes "content_type", quoted m.content_type)
    ∷ (codes "user_id", quoted m.user)
    ∷ (codes "id", id_text m.id)
    ∷ (codes "correlation_id", id_text m.correlation_id)
    ∷ (codes "priority", decimal m.priority)
    ∷ (codes "durable", bool_text m.durable)
    ∷ (codes "ttl", print_long m.ttl)
    ∷ []

abbrev pub property_text : Str × Leaf → Str
property_text (k, v) = field_text k (decode_leaf v)

-- An entry of a map with the given text between the key and the value.
abbrev pub entry_text : Str → Str × Element → Option Str
entry_text between (k, v) =
    Option.map (λ t. codes "'" ++ (k ++ (codes "'" ++ (between ++ t)))) (decode_element v)

-- The content, with the brackets of a list and the text between a key and its value.
abbrev pub content_text : Str → Str → Str → Body → Option Str
content_text left right between (single v) =
    some (if str_eq (decode_leaf v) [] then codes "None" else decode_leaf v)
content_text left right between (list_of l) =
    Option.map (λ ts. left ++ (joined ts ++ right)) (texts decode_element l)
content_text left right between (map_of m) =
    Option.map (λ ts. codes "{" ++ (joined ts ++ codes "}")) (texts (entry_text between) m)
content_text left right between other_map = none

abbrev pub dictionary : Message → Str → Str
dictionary m content =
    codes "{"
    ++ (header_text (header m)
        ++ (codes " 'properties': {"
            ++ (joined (map property_text m.properties)
                ++ (codes "}, 'content': " ++ (content ++ codes "}")))))

abbrev pub upstream : Message → Str → Str
upstream m content =
    codes "Message(properties={"
    ++ (joined (map property_text m.properties) ++ (codes "}, content=" ++ (content ++ codes ")")))

abbrev pub body_size : Body → ℕ
body_size (single v) = 0
body_size (list_of l) = length l
body_size (map_of m) = length m
body_size other_map = 0
