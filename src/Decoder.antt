-- ===== src/Decoder.antt =====
-- ReactorDecoder: src/api/qpid-proton/reactor/formatter/ReactorDecoder.cpp, with the functions of
-- src/common/formatter/AbstractDecoder.cpp that it calls, and the two formatters that call it,
-- printMessage of DictFormatter.cpp and of UpstreamFormatter.cpp.
-- A decoder takes the stream of any writer to the next one. What proton answers for a message is the
-- data below: an identifier as the answers of `coerce`, a number as the text that proton streams.
-- `none` as a result is an exception conversion_error that nothing catches. Log lines are left out.
pub mod Simulated
pub mod Entries
pub mod Dictionary
pub mod Header
pub mod Content
pub mod Printed
pub mod Abstract
mod Tests
use mathlib.Core.Option
use cli_cpp.Prelude.{
  ℕ, zero, suc, ◌+◌, ◌-◌, ◌*◌, ◌/◌, ◌%◌, ◌≤◌, ◌<◌, String, ◌≡◌, refl, sym, ap, ◌∙◌, subst, ◌≢◌, ◌↔◌,
  ◌⊎◌, inl, inr, Bool, true, false, not, ◌&&◌, ◌||◌, Option, none, some, List, [], ◌∷◌, ◌++◌, map,
  foldl, append-nil, append_assoc, arith, Str, codes, str_eq, ltb, leb, ◌==◌, if◌then◌else◌, length,
}
use cli_cpp.Prelude.Int.{ℤ}
use cli_cpp.CppString.{decimal}
use cli_cpp.Optparse.Numbers.{print_long}
use cli_cpp.Formatter
use cli_cpp.Writer.{Writer}

-- What coerce makes of a proton::message_id: `none` is a conversion_error.
pub record MessageId : Type 0 where
  pub is_empty : Bool
  pub as_uint64 : Option ℕ
  pub as_string : Option Str
  pub as_uuid : Option Str

-- A proton::value that is neither a list nor a map. `number` stands for UINT, LONG, INT, FLOAT and DOUBLE,
-- `other` for the types left that are not null.
pub data Leaf : Type 0 where
  string_of number other : Str → Leaf
  boolean : Bool → Leaf
  null array described : Leaf

-- An entry of a list or a map. What matters of a list in it is whether proton reads it as a list of texts.
pub data Element : Type 0 where
  leaf : Leaf → Element
  nested_list : Bool → Element
  nested_map : Element

-- The body. A map has its entries in the order of the keys, or keys that are not all texts.
pub data Body : Type 0 where
  single : Leaf → Body
  list_of : List Element → Body
  map_of : List (Str × Element) → Body
  other_map : Body

-- The getters of proton::message.
pub record Message : Type 0 where
  pub delivery_count : ℕ
  pub reply_to : Str
  pub subject : Str
  pub content_type : Str
  pub user : Str
  pub id : MessageId
  pub correlation_id : MessageId
  pub priority : ℕ
  pub durable : Bool
  pub ttl : ℤ
  pub properties : List (Str × Leaf)
  pub body : Body

-- ReactorDecoder::escapeQuotes, the same code as DictFormatter::escapeQuotes
unfoldable pub escape_quotes : Str → Str
unfolding Formatter.escape_quotes
escape_quotes s = Formatter.escape_quotes s

-- AbstractDecoder::decodeValue(bool)
unfoldable pub decode_bool : Bool → Str
decode_bool b = if b then codes "True" else codes "False"

-- AbstractDecoder::decodeValue(const string &)
unfoldable pub decode_string : Str → Str
decode_string s = if str_eq s [] then [] else s

-- ReactorDecoder::decodeValue(const value &)
unfoldable pub decode_leaf : Leaf → Str
unfolding decode_bool escape_quotes
decode_leaf (string_of s) = codes "'" ++ (escape_quotes s ++ codes "'")
decode_leaf (number s) = s
decode_leaf (other s) = codes "'" ++ (s ++ codes "'")
decode_leaf (boolean b) = decode_bool b
decode_leaf null = []
decode_leaf array = []
decode_leaf described = []

unfoldable pub decode_element : Element → Option Str
unfolding decode_leaf
decode_element (leaf v) = some (decode_leaf v)
decode_element (nested_list texts) = if texts then some [] else none
decode_element nested_map = some []

-- index++ of a uint32_t
unfoldable pub next_index : ℕ → ℕ
next_index i = (i + 1) % 4294967296

module _ {S : Type 0} (w : Writer S) where
  -- The four writes that put a name and a raw text, with the separators.
  unfoldable pub write_raw : Str → Str → S → S
  write_raw name shown s =
      w.write (codes ", ") true
        (w.write shown true (w.write (codes ": ") true (w.write name false s)))

  -- write with a StringReader
  unfoldable pub write_string : Str → Str → S → S
  unfolding write_raw decode_string
  write_string name value s =
      if str_eq value []
      then write_raw name (codes "None") s
      else w.write_pair (name, decode_string value) true s

  -- write with a Uint8Reader
  unfoldable pub write_uint8 : Str → ℕ → S → S
  unfolding write_raw
  write_uint8 name value s = write_raw name (decimal value) s

  -- write with a MessageIdReader
  unfoldable pub write_message_id : Str → MessageId → S → S
  unfolding write_raw write_string
  write_message_id name value s =
      if not value.is_empty
      then (elim value.as_uint64 [
        | some n ↦ w.write_pair (name, decimal n) true s
        | none ↦ elim value.as_string [
          | some t ↦ write_string name t s
          | none ↦ elim value.as_uuid [
            | some t ↦ write_string name t s
            | none ↦ write_raw name (codes "None") s
          ]
        ]
      ])
      else write_raw name (codes "None") s

  unfoldable pub write_ttl : Message → S → S
  unfolding write_raw
  write_ttl m s = write_raw (codes "ttl") (print_long m.ttl) s

  unfoldable pub write_durable : Message → S → S
  unfolding write_raw
  write_durable m s =
      write_raw (codes "durable") (if m.durable then codes "True" else codes "False") s

  unfoldable pub write_redelivered : Message → S → S
  unfolding write_raw
  write_redelivered m s =
      write_raw (codes "redelivered")
        (if ltb 0 m.delivery_count then codes "True" else codes "False") s

  -- The loop of writeProperties over the properties in the order of their names.
  unfoldable pub property_entries : ℕ → ℕ → List (Str × Leaf) → S → S
  unfolding decode_leaf
  property_entries size index [] s = s
  property_entries size index ((k, v) ∷ props) s =
      let s' =
        w.write (decode_leaf v) true
          (w.write (codes "': ") true (w.write k true (w.write (codes "'") true s))) in
      property_entries size (index + 1) props
        (if ltb (index + 1) size then w.write (codes ", ") true s' else s')

  unfoldable pub write_properties : Message → S → S
  unfolding property_entries
  write_properties m s =
      w.end_map (property_entries (length m.properties) 0 m.properties (w.start_map s))

  -- writeContentSize, which nothing calls
  unfoldable pub write_content_size : Message → S → S
  unfolding write_raw
  write_content_size m s =
      if not (str_eq m.content_type (codes "text/plain"))
      then write_raw (codes "size") (codes "0") s
      else write_raw (codes "size") (codes "0") s

  unfoldable pub decode_header : Message → S → S
  unfolding write_string write_uint8 write_message_id write_ttl write_durable write_redelivered
  decode_header m s =
      let s1 = write_redelivered m s in
      let s2 = write_string (codes "reply_to") m.reply_to s1 in
      let s3 = write_string (codes "subject") m.subject s2 in
      let s4 = write_string (codes "content_type") m.content_type s3 in
      let s5 = write_string (codes "user_id") m.user s4 in
      let s6 = write_message_id (codes "id") m.id s5 in
      let s7 = write_message_id (codes "correlation_id") m.correlation_id s6 in
      let s8 = write_uint8 (codes "priority") m.priority s7 in write_ttl m (write_durable m s8)

  unfoldable pub decode_properties : Message → S → S
  unfolding write_properties
  decode_properties m s = w.end_properties (write_properties m (w.start_properties s))

  -- The loops of decodeValue(Writer *, const value &) over a list and over a map.
  unfoldable pub list_elements : ℕ → ℕ → List Element → S → Option S
  unfolding decode_element next_index
  list_elements size index [] s = some s
  list_elements size index (v ∷ l) s = elim (decode_element v) [
    | none ↦ none
    | some t ↦
        let s' = w.write t true s in
        list_elements size (next_index index) l (if ltb index size then w.end_field s' else s')
  ]

  unfoldable pub map_elements : ℕ → ℕ → List (Str × Element) → S → Option S
  unfolding decode_element next_index
  map_elements size index [] s = some s
  map_elements size index ((k, v) ∷ l) s = elim (decode_element v) [
    | none ↦ none
    | some t ↦
        let s' = w.write t true (w.separate (w.write k false s)) in
        map_elements size (next_index index) l (if ltb index size then w.end_field s' else s')
  ]

  -- decodeValue(Writer *, const value &)
  unfoldable pub decode_value : Body → S → Option S
  unfolding list_elements map_elements
  decode_value (single v) s = some s
  decode_value (list_of l) s = Option.map w.end_list (list_elements (length l) 1 l (w.start_list s))
  decode_value (map_of m) s = Option.map w.end_map (map_elements (length m) 1 m (w.start_map s))
  decode_value other_map s = none

  write_content : Str → S → S
  write_content t s = if str_eq t [] then w.write (codes "None") true s else w.write t true s

  unfoldable pub decode_content : Message → S → Option S
  unfolding decode_value decode_leaf write_content
  decode_content m s = elim m.body [
    | single v ↦ some (write_content (decode_leaf v) s)
    | list_of l ↦ decode_value (list_of l) s
    | map_of l ↦ decode_value (map_of l) s
    | other_map ↦ decode_value other_map s
  ]

  -- DictFormatter::printMessage
  unfoldable pub print_dict : Message → S → Option S
  unfolding decode_header decode_properties decode_content
  print_dict m s = Option.map w.end_content (
      decode_content m (w.start_content (decode_properties m (decode_header m (w.start_header s)))))

  -- UpstreamFormatter::printMessage
  unfoldable pub print_upstream : Message → S → Option S
  unfolding decode_properties decode_content
  print_upstream m s =
      Option.map (λ s'. w.stop (w.end_content s'))
        (decode_content m (w.start_content (decode_properties m (w.start s))))
