-- ===== src/Items.antt =====
-- The properties, list items and map items of a message: nameVal, setMessageProperty,
-- setMessageListItem, setMessageMapItem and the loops over them in
-- src/api/qpid-proton/reactor/SendingClient.cpp. The number that atof reads is not modelled: a
-- floating-point item is the text that it is read from.
pub mod Named
mod Tests
use cli_cpp.Prelude.{
  ℕ, zero, suc, ◌+◌, ◌-◌, ◌*◌, ◌/◌, ◌%◌, ◌≤◌, ◌<◌, String, ◌≡◌, refl, sym, ap, ◌∙◌, subst, ◌≢◌, ◌↔◌,
  ◌⊎◌, inl, inr, Bool, true, false, not, ◌&&◌, ◌||◌, Option, none, some, List, [], ◌∷◌, ◌++◌, map,
  foldl, append-nil, append_assoc, arith, Str, codes, str_eq, str_lt, str_eq→eq, str_eq_refl,
  ne→str_eq, str_eq-false_sym, ltb, leb, ◌==◌, if◌then◌else◌, ltb→lt, lt→ltb, leb→le, le→leb,
  lt→leb_false, eq→==, ne→==, ==→eq, Bool-cases, Option-cases, length, take, drop, length-append,
  take-length_append, drop-length_append, drop-behind, take-all, length-drop-le, select,
  select-append, cons?,
}
use cli_cpp.Prelude.Int.{ℤ}
use cli_cpp.CppString.{npos, find, to_lower}
use cli_cpp.StrMap.{lookup, insert}
use cli_cpp.Optparse.Numbers.{strtol}

-- What nameVal leaves in its arguments, and its result.
pub record NameVal : Type 0 where
  pub name : Str
  pub value : Str
  pub separator : Str
  pub has_value : Bool

-- The part of nameVal behind the search for a separator, which is at i.
unfoldable pub split_at : Str → Str → ℕ → NameVal
split_at separator s i = record {
  name = take i s;
  value = if ltb (i + 1) (length s) then drop (i + 1) s else [];
  separator = separator;
  has_value = ltb (i + 1) (length s);
}

-- nameVal
unfoldable pub name_val : Str → NameVal
unfolding split_at
name_val s =
    let i = find s (codes "=") 0 in
    let j = find s (codes "~") 0 in
    if not (i == npos)
    then split_at (codes "=") s i
    else if not (j == npos)
    then split_at (codes "~") s j
    else record { name = s; value = []; separator = codes "~"; has_value = false }

-- What is put into a message: true or false, what atof reads, what atol reads, or a string.
pub data Item : Type 0 where
  truth : Bool → Item
  real : Str → Item
  long : ℤ → Item
  string : Str → Item

unfoldable pub has_text : Str → String → Bool
has_text s p = not (find s (codes p) 0 == npos)

-- The value behind a tilde, for a property and for a map item.
unfoldable pub cast : Str → Item
unfolding has_text
cast v =
    let temp = to_lower v in
    if str_eq temp (codes "true")
    then truth true
    else if str_eq temp (codes "false")
    then truth false
    else if has_text v "." || (has_text v "e" || has_text v "E")
    then real v
    else long (strtol v)

-- The same for a list item, where a second tilde keeps the string.
unfoldable pub cast_in_list : Str → Item
unfolding has_text
cast_in_list v =
    let temp = to_lower v in
    if str_eq temp (codes "true")
    then truth true
    else if str_eq temp (codes "false")
    then truth false
    else if has_text v "." || (has_text v "e" || has_text v "E")
    then real v
    else if has_text v "~"
    then string v
    else long (strtol v)

-- The name and the item of setMessageProperty and setMessageMapItem.
unfoldable pub named_item : Str → Str × Item
named_item property =
    let n = name_val property in
    if n.has_value && str_eq n.separator (codes "~")
    then (n.name, cast n.value)
    else (n.name, string n.value)

-- setMessageProperty
unfoldable pub set_message_property : List (Str × Item) → Str → List (Str × Item)
set_message_property properties property =
    insert (named_item property).0 (named_item property).1 properties

-- setMessageListItem: the item that it pushes
unfoldable pub list_item : Str → Item
list_item property =
    let n = name_val property in
    if n.has_value && str_eq n.separator (codes "~") then cast_in_list n.value else string n.name

-- setMessageMapItem
unfoldable pub set_message_map_item : List (Str × Item) → Str → List (Str × Item)
set_message_map_item items property = insert (named_item property).0 (named_item property).1 items

-- setMessageProperties, setMessageList and setMessageMap, of the strings of their callbacks
unfoldable pub set_message_properties : List Str → List (Str × Item)
set_message_properties = foldl set_message_property []

unfoldable pub set_message_list : List Str → List Item
set_message_list = map list_item

unfoldable pub set_message_map : List Str → List (Str × Item)
set_message_map = foldl set_message_map_item []
