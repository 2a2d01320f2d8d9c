-- ===== src/Client/Composed.antt =====
-- The message and the sender that SendingClient.cpp of src/api/qpid-proton/reactor starts from its options.
use cli_cpp.Prelude.{
  ◌≤◌, ◌<◌, ◌≡◌, ◌≢◌, true, false, refl, ap, ◌∙◌, inl, inr, Option, none, some, List, [], ◌∷◌,
  Bool-cases, arith, length, ltb, ◌==◌, Str, codes, if◌then◌else◌,
}
use cli_cpp.Prelude.Int.{ℤ, pos, pos_part}
use cli_cpp.CppString.{npos, find}
use cli_cpp.CppString.Fields.{fields}
use cli_cpp.Uri.Render.{Parts, IsProper, render}
use cli_cpp.Optparse.{Values, value_of, is_set}
use cli_cpp.Optparse.Loop.{done}
use cli_cpp.Optparse.Numbers.{strtol_32}
use cli_cpp.Handler.{Settings}
use cli_cpp.Append.{get_strings}
use cli_cpp.Append.Strings.{decode, get_strings-fields}
use cli_cpp.Cli.Validate.{validate_modern}
use cli_cpp.Sender
use cli_cpp.Sender.{Sender, Event}
use cli_cpp.Sender.Sent.{sent_messages, instances, run-prepare}
use cli_cpp.Items.{set_message_properties, set_message_list, set_message_map}
use cli_cpp.Client.{given_or}
use cli_cpp.Client.Prepared.{IsPrepared, settings_of-IsPrepared}
use cli_cpp.Client.Filled.{IsFilled, set_message_options-IsFilled}
use cli_cpp.Client.Texts.{HasTexts, set_message_options-HasTexts}
use cli_cpp.Client.Sending.{
  Body, no_body, list_body, map_body, text_body, Message, Callbacks, set_message_options, body_of,
  message_of, int_given_or, sender_of,
}

get_strings_total : (s : Str) → length s < npos → (l : List Str) × (get_strings s ≡ some l)
get_strings_total s b = elim (Bool-cases (find s (codes ";") 0 == npos)) [
  | inl e ↦ ((if ltb 0 (length s) then s ∷ [] else []), get_strings-fields s b ∙ (rw e refl))
  | inr e ↦ (decode (fields b';' s), get_strings-fields s b ∙ (rw e refl))
]

-- The body that the callbacks hold: their list items, else their map items, else the option msg-content as a text.
pub data BodyOf (c : Callbacks) (vs : Values) : Body → Type 0 where
  of_list :
      (l : List Str)
      → c.list ≢ []
      → get_strings c.list ≡ some l
      → BodyOf c vs (list_body (set_message_list l))
  of_map :
      (l : List Str)
      → c.list ≡ []
      → c.map ≢ []
      → get_strings c.map ≡ some l
      → BodyOf c vs (map_body (set_message_map l))
  of_text : c.list ≡ [] → c.map ≡ [] → BodyOf c vs (text_body (value_of (codes "msg-content") vs))

some_bytes : (s : Str) → ltb 0 (length s) ≡ true → s ≢ []
some_bytes s h e = absurd (ground (arith, h, ap length e))

no_bytes : (s : Str) → ltb 0 (length s) ≡ false → s ≡ []
no_bytes [] h = refl
no_bytes (x ∷ s) h = absurd (ground (arith, h))

body_of_total :
    (c : Callbacks) (vs : Values)
    → length c.list < npos
    → length c.map < npos
    → (b : Body) × (body_of c vs ≡ some b) × BodyOf c vs b
unfolding body_of
body_of_total c vs h k =
    let (l, e) = get_strings_total c.list h in
    let (m, f) = get_strings_total c.map k in
    elim (Bool-cases (ltb 0 (length c.list))) [
      | inl p ↦ (list_body (set_message_list l), rw (p, e) refl, of_list l (some_bytes c.list p) e)
      | inr p ↦ elim (Bool-cases (ltb 0 (length c.map))) [
        | inl q ↦ (
          map_body (set_message_map m),
          rw (p, q, f) refl,
          of_map m (no_bytes c.list p) (some_bytes c.map q) f,
        )
        | inr q ↦ (
          text_body (value_of (codes "msg-content") vs),
          rw (p, q) refl,
          of_text (no_bytes c.list p) (no_bytes c.map q),
        )
      ]
    ]

-- The message has the texts and the other options that are given, the properties that getStrings reads and its body.
pub record IsComposed (fresh : Message) (c : Callbacks) (vs : Values) (m : Message) : Type 0 where
  pub filled : IsFilled fresh vs m
  pub properties :
      (l : List Str) × (get_strings c.property ≡ some l) × (m.properties ≡ set_message_properties l)
  pub texts : HasTexts fresh vs m
  pub body : BodyOf c vs m.body

message_of_total :
    (fresh : Message) (c : Callbacks) (vs : Values)
    → length c.property < npos
    → length c.list < npos
    → length c.map < npos
    → (m : Message) × (message_of fresh c vs ≡ some m) × IsComposed fresh c vs m
unfolding message_of
message_of_total fresh c vs h k n =
    let (l, e) = get_strings_total c.property h in
    let (b, f, of_body) = body_of_total c vs k n in
    let texts = set_message_options-HasTexts fresh vs in
    let filled = set_message_options-IsFilled fresh vs in
    let m : Message = record (set_message_options vs fresh) {
      properties = set_message_properties l;
      body = b;
    } in
    elim (Bool-cases (is_set (codes "msg-group-seq") vs)) [
      | inl g ↦ (
        record m { group_sequence = strtol_32 (value_of (codes "msg-group-seq") vs) },
        rw (e, f, g, message_of) refl,
        record {
          filled = record {
            ttl = filled.ttl;
            priority = filled.priority;
            durable = filled.durable;
          };
          properties = (l, e, refl);
          texts = record {
            reply_to = texts.reply_to;
            to = texts.to;
            correlation_id = texts.correlation_id;
            content_type = texts.content_type;
            subject = texts.subject;
            id = texts.id;
            user = texts.user;
            group_id = texts.group_id;
            reply_to_group_id = texts.reply_to_group_id;
          };
          body = of_body;
        },
      )
      | inr g ↦ (
        m,
        rw (e, f, g, message_of) refl,
        record {
          filled = record {
            ttl = filled.ttl;
            priority = filled.priority;
            durable = filled.durable;
          };
          properties = (l, e, refl);
          texts = record {
            reply_to = texts.reply_to;
            to = texts.to;
            correlation_id = texts.correlation_id;
            content_type = texts.content_type;
            subject = texts.subject;
            id = texts.id;
            user = texts.user;
            group_id = texts.group_id;
            reply_to_group_id = texts.reply_to_group_id;
          };
          body = of_body;
        },
      )
    ]

-- get<string> of a body, and the setter of a text
abbrev pub text : Message → Option Str
text m = elim m.body [
  | no_body ↦ none
  | list_body l ↦ none
  | map_body l ↦ none
  | text_body s ↦ some s
]

abbrev pub set_text : Message → Str → Message
set_text m s = record m { body = text_body s }

settings_kept :
    {p : Parts} {vs : Values} (settings : Settings) (timeout duration : ℤ) (mode : Str)
    (fresh m : Message) (n : ℤ)
    → IsPrepared p vs settings
    → IsPrepared p vs (Sender.prepare settings timeout duration mode fresh m n).settings
unfolding Sender.prepare
settings_kept settings timeout duration mode fresh m n h = h

-- Options that the validation passes, with a broker URL of all its parts, which hold no closing bracket and none of the
-- delimiters that would end them, and without topic://, start a sender of one
-- message. Its addresses, identifiers, subject, content type, user and groups are the texts of their options, or those of
-- the fresh message. Its time to live is that of its option or 0, its priority the low byte of its option, it is durable if its
-- option is yes, true or True. It has the properties that the callbacks hold, and as its body their list items, else their
-- map items, else the text of msg-content. In every run the message is sent with the numbers 0, 1, 2 and so on in place of
-- its first %d, and not more often than the option count says, or once without it. The texts of the callbacks are shorter
-- than npos.
pub sender_of-run :
    (forever_ms : ℤ) (fresh : Message) (c : Callbacks) (p : Parts) (vs : Values) (es : List Event)
    → length c.property < npos
    → length c.list < npos
    → length c.map < npos
    → IsProper p
    → find (render p) (codes "topic://") 0 ≡ npos
    → value_of (codes "broker-url") vs ≡ render p
    → validate_modern vs ≡ done tt
    → (m : Message) × (s : Sender Message) × (sender_of forever_ms fresh c vs ≡ some s)
      × IsComposed fresh c vs m
      × IsPrepared p vs s.settings
      × (sent_messages (Sender.run text set_text s es).1
          ≡ instances text set_text m 0 (Sender.run text set_text s es).0.sent)
      × ((Sender.run text set_text s es).0.sent ≤ pos_part (int_given_or "count" (pos 1) vs))
unfolding sender_of
sender_of-run forever_ms fresh c p vs es a b d h t e v =
    let (m, made, composed) = message_of_total fresh c vs a b d in
    let (settings, (found, prepared)) = settings_of-IsPrepared forever_ms p vs h t e v in
    let timeout = int_given_or "timeout" (pos 1) vs in
    let duration = int_given_or "duration" (pos 0) vs in
    let mode = given_or "duration-mode" (codes "after-send") vs in
    let count = int_given_or "count" (pos 1) vs in
    let sent = run-prepare text set_text settings timeout duration mode fresh m count es in
    (
      m,
      Sender.prepare settings timeout duration mode fresh m count,
      rw (made, found, sender_of) refl,
      composed,
      settings_kept settings timeout duration mode fresh m count prepared,
      sent.0,
      sent.1,
    )
