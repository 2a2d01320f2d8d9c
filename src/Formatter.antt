-- ===== src/Formatter.antt =====
-- DictFormatter: src/common/formatter/DictFormatter.cpp, the static functions that print a message
-- as a dictionary of Python. A value of proton is the data below; what proton itself writes to a stream
-- (a number, a symbol, a time) is the text that it writes.
pub mod Escapes
pub mod Joins
mod Tests
use cli_cpp.Prelude.{
  ℕ, zero, suc, ◌+◌, ◌-◌, ◌*◌, ◌/◌, ◌%◌, ◌≤◌, ◌<◌, String, ◌≡◌, refl, sym, ap, ◌∙◌, subst, ◌≢◌, ◌↔◌,
  ◌⊎◌, inl, inr, Bool, true, false, not, ◌&&◌, ◌||◌, Option, none, some, List, [], ◌∷◌, ◌++◌, map,
  foldl, append-nil, append_assoc, arith, Str, codes, str_eq, str_lt, str_eq→eq, str_eq_refl,
  ne→str_eq, str_eq-false_sym, ltb, leb, ◌==◌, if◌then◌else◌, ltb→lt, lt→ltb, leb→le, le→leb,
  lt→leb_false, eq→==, ne→==, ==→eq, Bool-cases, Option-cases, length, take, drop, length-append,
  take-length_append, drop-length_append, take-all, length-drop-le, select, select-append, cons?,
}
use cli_cpp.CppString.{npos, find, starts_with, decimal}
use cli_cpp.Prelude.Int.{ℤ}
use cli_cpp.Optparse.Numbers.{print_long}

-- proton::scalar
pub data Scalar : Type 0 where
  text number other : Str → Scalar
  null : Scalar

-- proton::value
pub data Value : Type 0 where
  array_of described : Value
  list_of : List Scalar → Value
  map_of : List (Str × Scalar) → Value
  scalar_of : Scalar → Value

-- formatBool
unfoldable pub format_bool : Bool → Str
format_bool b = if b then codes "True" else codes "False"

-- formatString
unfoldable pub format_string : Str → Bool → Str
format_string s remove_id_prefix =
    if str_eq s []
    then codes "None"
    else if remove_id_prefix && find s (codes "ID:") 0 == 0
    then codes "'" ++ (drop (find s (codes ":") 0 + 1) s ++ codes "'")
    else codes "'" ++ (s ++ codes "'")

-- The loop of escapeQuotes, on fuel: the text and the index of its next quote.
unfoldable pub escape_loop : ℕ → Str → ℕ → Str
escape_loop zero s i = s
escape_loop (suc fuel) s i =
    let s' = take i s ++ (codes "\\'" ++ drop (i + 1) s) in
    let rest = escape_loop fuel s' (find s' (codes "'") (i + 2)) in if i == npos then s else rest

unfoldable pub escape_quotes : Str → Str
unfolding escape_loop
escape_quotes s = escape_loop (suc (length s)) s (find s (codes "'") 0)

-- getValue for a scalar
unfoldable pub scalar_value : Scalar → Str
scalar_value (text s) =
    if str_eq s [] then codes "None" else codes "'" ++ (escape_quotes s ++ codes "'")
scalar_value (number s) = s
scalar_value (other s) = codes "'" ++ (s ++ codes "'")
scalar_value null = codes "None"

-- The loops of formatList, formatMap and formatProperties: the index counts the entries that have been
-- written, and a separator follows all but the last of `size` entries.
unfoldable pub list_entries : ℕ → ℕ → List Scalar → Str
list_entries size index [] = []
list_entries size index (v ∷ l) =
    scalar_value v
    ++ ((if ltb (suc index) size then codes ", " else []) ++ list_entries size (suc index) l)

-- formatList
unfoldable pub format_list : List Scalar → Str
unfolding list_entries
format_list l = codes "[" ++ (list_entries (length l) 0 l ++ codes "]")

unfoldable pub map_entry : Str × Scalar → Str
map_entry (k, v) = codes "'" ++ (k ++ (codes "': " ++ scalar_value v))

unfoldable pub map_entries : ℕ → ℕ → List (Str × Scalar) → Str
unfolding map_entry
map_entries size index [] = []
map_entries size index (e ∷ m) =
    map_entry e
    ++ ((if ltb (suc index) size then codes ", " else []) ++ map_entries size (suc index) m)

-- formatMap, of the entries in the order of their keys
unfoldable pub format_map : List (Str × Scalar) → Str
unfolding map_entries
format_map m = codes "{" ++ (map_entries (length m) 0 m ++ codes "}")

-- formatProperties, of the same
unfoldable pub format_properties : List (Str × Scalar) → Str
unfolding map_entries
format_properties m = codes "{" ++ (map_entries (length m) 0 m ++ codes "}")

-- getValue
unfoldable pub get_value : Value → Str
get_value array_of = []
get_value described = []
get_value (list_of l) = format_list l
get_value (map_of m) = format_map m
get_value (scalar_of v) = scalar_value v

-- stripAddressPrefix
unfoldable pub strip_address_prefix : Str → Str
strip_address_prefix s = if find s (codes "topic://") 0 == 0 then drop 8 s else s

-- What is printed of a proton::message. An identifier is `none` if it is empty.
pub record Message : Type 0 where
  pub durable : Bool
  pub priority : ℕ
  pub ttl : ℤ
  pub first_acquirer : Bool
  pub delivery_count : ℕ
  pub id : Option Str
  pub user : Str
  pub to : Str
  pub subject : Str
  pub reply_to : Str
  pub correlation_id : Option Str
  pub content_type : Str
  pub content_encoding : Str
  pub expiry_time : ℤ
  pub creation_time : ℤ
  pub group_id : Str
  pub group_sequence : ℤ
  pub reply_to_group_id : Str
  pub properties : List (Str × Scalar)
  pub body : Value

format_id : Option Str → Str
format_id none = codes "None"
format_id (some s) = format_string s true

-- printMessageInterop, without the line end
unfoldable pub print_message : Message → Str
unfolding format_id
print_message m =
    codes "{"
    ++ (codes "'durable': "
        ++ (format_bool m.durable
            ++ (codes ", 'priority': "
                ++ (decimal m.priority
                    ++ (codes ", 'ttl': "
                        ++ (print_long m.ttl
                            ++ (codes ", 'first-acquirer': "
                                ++ (format_bool m.first_acquirer
                                    ++ (codes ", 'delivery-count': "
                                        ++ (decimal m.delivery_count
                                            ++ (codes ", 'id': "
                                                ++ (format_id m.id
                                                    ++ (codes ", 'user-id': "
                                                        ++ (format_string m.user false
                                                            ++ (codes ", 'address': "
                                                            ++ (format_string
                                                            (strip_address_prefix m.to) false
                                                            ++ (codes ", 'subject': "
                                                            ++ (format_string m.subject false
                                                            ++ (codes ", 'reply-to': "
                                                            ++ (format_string m.reply_to false
                                                            ++ (codes ", 'correlation-id': "
                                                            ++ (format_id m.correlation_id
                                                            ++ (codes ", 'content-type': "
                                                            ++ (format_string m.content_type false
                                                            ++ (codes ", 'content-encoding': "
                                                            ++ (format_string m.content_encoding
                                                            false
                                                            ++ (codes ", 'absolute-expiry-time': "
                                                            ++ (print_long m.expiry_time
                                                            ++ (codes ", 'creation-time': "
                                                            ++ (print_long m.creation_time
                                                            ++ (codes ", 'group-id': "
                                                            ++ (format_string m.group_id false
                                                            ++ (codes ", 'group-sequence': "
                                                            ++ (print_long m.group_sequence
                                                            ++ (codes ", 'reply-to-group-id': "
                                                            ++ (format_string m.reply_to_group_id
                                                            false
                                                            ++ (codes ", 'properties': "
                                                            ++ (format_properties m.properties
                                                            ++ (codes ", 'content': "
                                                            ++ (get_value m.body
                                                            ++ codes
                                                            "}"))))))))))))))))))))))))))))))))))))))))
