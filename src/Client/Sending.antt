-- ===== src/Client/Sending.antt =====
-- SendingClient: what `run` of src/api/qpid-proton/reactor/SendingClient.cpp makes of the validated options and of the
-- texts of the parser's callbacks: the message and the sender. This is the 64-bit build, which defines
-- ENABLE_IMPLICIT_CONVERSIONS. The message as proton creates it is a parameter.
use cli_cpp.Prelude.{
  ℕ, ◌-◌, ◌%◌, String, Bool, Option, none, some, List, Str, codes, ltb, if◌then◌else◌, length,
}
use cli_cpp.Prelude.Int.{ℤ, pos, negsuc}
use cli_cpp.Optparse.{Values, value_of, is_set}
use cli_cpp.Optparse.Numbers.{strtol_32}
use cli_cpp.Append.{get_strings}
use cli_cpp.Items.{Item, set_message_properties, set_message_list, set_message_map}
use cli_cpp.Sender
use cli_cpp.Sender.{Sender}
use cli_cpp.Setter.{get, as_int, as_ulong, set, set_number, set_number_or, set_boolean}
use cli_cpp.Client.{settings_of, given_or, ◌>>=◌}

pub data Body : Type 0 where
  no_body : Body
  list_body : List Item → Body
  map_body : List (Str × Item) → Body
  text_body : Str → Body

-- What is set of a proton::message.
pub record Message : Type 0 where
  pub reply_to : Str
  pub to : Str
  pub correlation_id : Str
  pub content_type : Str
  pub subject : Str
  pub id : Str
  pub ttl : ℕ
  pub user : Str
  pub priority : ℕ
  pub durable : Bool
  pub group_id : Str
  pub reply_to_group_id : Str
  pub group_sequence : ℤ
  pub properties : List (Str × Item)
  pub body : Body

-- An int as a uint8_t
unfoldable pub low_byte : ℤ → ℕ
low_byte (pos n) = n % 256
low_byte (negsuc n) = 255 - n % 256

-- The parts of setMessageOptions, in its order.
unfoldable pub set_texts : Values → Message → Message
unfolding set
set_texts vs m0 =
    let m1 = set (codes "msg-reply-to") vs (λ s m. record m { reply_to = s }) m0 in
    let m2 = set (codes "msg-to") vs (λ s m. record m { to = s }) m1 in
    let m3 = set (codes "msg-correlation-id") vs (λ s m. record m { correlation_id = s }) m2 in
    let m4 = set (codes "msg-content-type") vs (λ s m. record m { content_type = s }) m3 in
    let m5 = set (codes "msg-subject") vs (λ s m. record m { subject = s }) m4 in
    set (codes "msg-id") vs (λ s m. record m { id = s }) m5

unfoldable pub set_ttl : Values → Message → Message
unfolding set_number_or as_ulong
set_ttl vs = set_number_or (codes "msg-ttl") vs as_ulong 0 (λ n m. record m { ttl = n })

unfoldable pub set_user : Values → Message → Message
unfolding set
set_user vs = set (codes "msg-user-id") vs (λ s m. record m { user = s })

unfoldable pub set_priority : Values → Message → Message
unfolding set_number low_byte
set_priority vs = set_number (codes "msg-priority") vs (λ n m. record m { priority = low_byte n })

unfoldable pub set_durable : Values → Message → Message
unfolding set_boolean
set_durable vs = set_boolean (codes "msg-durable") vs (λ b m. record m { durable = b })

unfoldable pub set_groups : Values → Message → Message
unfolding set
set_groups vs m0 =
    let m1 = set (codes "msg-group-id") vs (λ s m. record m { group_id = s }) m0 in
    set (codes "reply-to-group-id") vs (λ s m. record m { reply_to_group_id = s }) m1

unfoldable pub set_message_options : Values → Message → Message
unfolding set_texts set_ttl set_user set_priority set_durable set_groups
set_message_options vs m =
    set_groups vs (set_durable vs (set_priority vs (set_user vs (set_ttl vs (set_texts vs m)))))

-- The texts of the callbacks callbackProperty, callbackList and callbackMap.
pub record Callbacks : Type 0 where
  pub property : Str
  pub list : Str
  pub map : Str

-- The body: a list if there are list items, else a map if there are map items, else the text.
unfoldable pub body_of : Callbacks → Values → Option Body
body_of c vs =
    if ltb 0 (length c.list)
    then (elim (get_strings c.list) [
      | none ↦ none
      | some l ↦ some (list_body (set_message_list l))
    ])
    else if ltb 0 (length c.map)
    then (elim (get_strings c.map) [ none ↦ none | some l ↦ some (map_body (set_message_map l)) ])
    else some (text_body (value_of (codes "msg-content") vs))

-- The message; `none` is an exception of getStrings.
unfoldable pub message_of : Message → Callbacks → Values → Option Message
unfolding set_message_options body_of
message_of fresh c vs = do
  properties ← get_strings c.property
  body ← body_of c vs
  let m = set_message_options vs fresh
  let m' = record m { properties = set_message_properties properties; body = body }
  some (
      if is_set (codes "msg-group-seq") vs
      then record m' { group_sequence = strtol_32 (value_of (codes "msg-group-seq") vs) }
      else m')

-- An option that is read as an int if it is given.
unfoldable pub int_given_or : String → ℤ → Values → ℤ
unfolding as_int get
int_given_or d other vs = if is_set (codes d) vs then as_int (get (codes d) vs) else other

-- The sender; `none` is an exception.
unfoldable pub sender_of : ℤ → Message → Callbacks → Values → Option (Sender Message)
unfolding message_of int_given_or given_or
sender_of forever_ms fresh c vs = do
  msg ← message_of fresh c vs
  settings ← settings_of forever_ms vs
  some (
      Sender.prepare settings (int_given_or "timeout" (pos 1) vs)
        (int_given_or "duration" (pos 0) vs) (given_or "duration-mode" (codes "after-send") vs)
        fresh msg (int_given_or "count" (pos 1) vs))
