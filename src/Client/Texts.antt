-- ===== src/Client/Texts.antt =====
-- The texts of the message that setMessageOptions of src/api/qpid-proton/reactor/SendingClient.cpp takes from the options.
use cli_cpp.Prelude.{◌≡◌, ap, ◌∙◌, if◌then◌else◌, arith, String, Str, codes}
use cli_cpp.Optparse.{Values, value_of, is_set}
use cli_cpp.Client.Sending.{
  Message, set_texts, set_ttl, set_user, set_priority, set_durable, set_groups, set_message_options,
}

-- An option, or what was there without it.
abbrev pub text_or : String → Values → Str → Str
text_or d vs other = if is_set (codes d) vs then value_of (codes d) vs else other

-- The texts of a message, each with its option.
pub record HasTexts (fresh : Message) (vs : Values) (m : Message) : Type 0 where
  pub reply_to : m.reply_to ≡ text_or "msg-reply-to" vs fresh.reply_to
  pub to : m.to ≡ text_or "msg-to" vs fresh.to
  pub correlation_id : m.correlation_id ≡ text_or "msg-correlation-id" vs fresh.correlation_id
  pub content_type : m.content_type ≡ text_or "msg-content-type" vs fresh.content_type
  pub subject : m.subject ≡ text_or "msg-subject" vs fresh.subject
  pub id : m.id ≡ text_or "msg-id" vs fresh.id
  pub user : m.user ≡ text_or "msg-user-id" vs fresh.user
  pub group_id : m.group_id ≡ text_or "msg-group-id" vs fresh.group_id
  pub reply_to_group_id :
      m.reply_to_group_id ≡ text_or "reply-to-group-id" vs fresh.reply_to_group_id

-- What a part of setMessageOptions leaves alone.
abbrev Keeps : Message → Message → Type 0
Keeps m n =
    (n.reply_to ≡ m.reply_to)
    × (n.to ≡ m.to)
    × (n.correlation_id ≡ m.correlation_id)
    × (n.content_type ≡ m.content_type)
    × (n.subject ≡ m.subject)
    × (n.id ≡ m.id)

abbrev KeepsRest : Message → Message → Type 0
KeepsRest m n =
    (n.user ≡ m.user) × (n.group_id ≡ m.group_id) × (n.reply_to_group_id ≡ m.reply_to_group_id)

module _ (vs : Values) (m : Message) where
  set_texts-takes :
      ((set_texts vs m).reply_to ≡ text_or "msg-reply-to" vs m.reply_to)
      × ((set_texts vs m).to ≡ text_or "msg-to" vs m.to)
      × ((set_texts vs m).correlation_id ≡ text_or "msg-correlation-id" vs m.correlation_id)
      × ((set_texts vs m).content_type ≡ text_or "msg-content-type" vs m.content_type)
      × ((set_texts vs m).subject ≡ text_or "msg-subject" vs m.subject)
      × ((set_texts vs m).id ≡ text_or "msg-id" vs m.id)
      × KeepsRest m (set_texts vs m)
  unfolding set_texts
  set_texts-takes = ground arith

  set_ttl-Keeps : Keeps m (set_ttl vs m) × KeepsRest m (set_ttl vs m)
  unfolding set_ttl
  set_ttl-Keeps = ground arith

  set_user-takes :
      Keeps m (set_user vs m)
      × ((set_user vs m).user ≡ text_or "msg-user-id" vs m.user)
      × ((set_user vs m).group_id ≡ m.group_id)
      × ((set_user vs m).reply_to_group_id ≡ m.reply_to_group_id)
  unfolding set_user
  set_user-takes = ground arith

  set_priority-Keeps : Keeps m (set_priority vs m) × KeepsRest m (set_priority vs m)
  unfolding set_priority
  set_priority-Keeps = ground arith

  set_durable-Keeps : Keeps m (set_durable vs m) × KeepsRest m (set_durable vs m)
  unfolding set_durable
  set_durable-Keeps = ground arith

  set_groups-takes :
      Keeps m (set_groups vs m)
      × ((set_groups vs m).user ≡ m.user)
      × ((set_groups vs m).group_id ≡ text_or "msg-group-id" vs m.group_id)
      × ((set_groups vs m).reply_to_group_id ≡ text_or "reply-to-group-id" vs m.reply_to_group_id)
  unfolding set_groups
  set_groups-takes = ground arith

pub set_message_options-HasTexts :
    (fresh : Message) (vs : Values) → HasTexts fresh vs (set_message_options vs fresh)
unfolding set_message_options
set_message_options-HasTexts fresh vs =
    let m1 : Message = set_texts vs fresh in
    let m2 : Message = set_ttl vs m1 in
    let m3 : Message = set_user vs m2 in
    let m4 : Message = set_priority vs m3 in
    let m5 : Message = set_durable vs m4 in
    let t = set_texts-takes vs fresh in
    let a = set_ttl-Keeps vs m1 in
    let u = set_user-takes vs m2 in
    let p = set_priority-Keeps vs m3 in
    let d = set_durable-Keeps vs m4 in
    let g = set_groups-takes vs m5 in
    record {
      reply_to = g.0.0 ∙ d.0.0 ∙ p.0.0 ∙ u.0.0 ∙ a.0.0 ∙ t.0;
      to = g.0.1 ∙ d.0.1 ∙ p.0.1 ∙ u.0.1 ∙ a.0.1 ∙ t.1;
      correlation_id = g.0.2 ∙ d.0.2 ∙ p.0.2 ∙ u.0.2 ∙ a.0.2 ∙ t.2;
      content_type = g.0.3 ∙ d.0.3 ∙ p.0.3 ∙ u.0.3 ∙ a.0.3 ∙ t.3;
      subject = g.0.4 ∙ d.0.4 ∙ p.0.4 ∙ u.0.4 ∙ a.0.4 ∙ t.4;
      id = g.0.5 ∙ d.0.5 ∙ p.0.5 ∙ u.0.5 ∙ a.0.5 ∙ t.5;
      user = g.1 ∙ d.1.0 ∙ p.1.0 ∙ u.1 ∙ ap (text_or "msg-user-id" vs) (a.1.0 ∙ t.6.0);
      group_id = g.2 ∙ ap (text_or "msg-group-id" vs) (d.1.1 ∙ p.1.1 ∙ u.2 ∙ a.1.1 ∙ t.6.1);
      reply_to_group_id =
          g.3 ∙ ap (text_or "reply-to-group-id" vs) (d.1.2 ∙ p.1.2 ∙ u.3 ∙ a.1.2 ∙ t.6.2);
    }
