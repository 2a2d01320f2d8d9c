-- ===== src/Client/Filled.antt =====
-- The options of the message that setMessageOptions of src/api/qpid-proton/reactor/SendingClient.cpp reads as
-- numbers and as truth values.
use cli_cpp.Prelude.{◌||◌, ◌≡◌, ap, ◌∙◌, Bool, arith, codes, str_eq, if◌then◌else◌}
use cli_cpp.Optparse.{Values, value_of, is_set}
use cli_cpp.Setter.{get, as_ulong, as_int}
use cli_cpp.Client.Sending.{
  Message, low_byte, set_texts, set_ttl, set_user, set_priority, set_durable, set_groups,
  set_message_options,
}

abbrev pub chosen_durable : Values → Bool → Bool
chosen_durable vs other =
    if is_set (codes "msg-durable") vs
    then (let v = value_of (codes "msg-durable") vs in
        str_eq v (codes "yes") || (str_eq v (codes "true") || str_eq v (codes "True")))
    else other

-- The options of a message that are not copied as they are.
pub record IsFilled (fresh : Message) (vs : Values) (m : Message) : Type 0 where
  pub ttl : m.ttl ≡ (if is_set (codes "msg-ttl") vs then as_ulong (get (codes "msg-ttl") vs) else 0)
  pub priority : m.priority ≡ (
      if is_set (codes "msg-priority") vs
      then low_byte (as_int (get (codes "msg-priority") vs))
      else fresh.priority)
  pub durable : m.durable ≡ chosen_durable vs fresh.durable

module _ (vs : Values) (m : Message) where
  groups_keep :
      ((set_groups vs m).ttl ≡ m.ttl)
      × ((set_groups vs m).priority ≡ m.priority)
      × ((set_groups vs m).durable ≡ m.durable)
  unfolding set_groups
  groups_keep = ground arith

  durable_keeps : ((set_durable vs m).ttl ≡ m.ttl) × ((set_durable vs m).priority ≡ m.priority)
  unfolding set_durable
  durable_keeps = ground arith

  priority_keeps : ((set_priority vs m).ttl ≡ m.ttl) × ((set_priority vs m).durable ≡ m.durable)
  unfolding set_priority
  priority_keeps = ground arith

  user_keeps :
      ((set_user vs m).ttl ≡ m.ttl)
      × ((set_user vs m).priority ≡ m.priority)
      × ((set_user vs m).durable ≡ m.durable)
  unfolding set_user
  user_keeps = ground arith

  ttl_keeps : ((set_ttl vs m).priority ≡ m.priority) × ((set_ttl vs m).durable ≡ m.durable)
  unfolding set_ttl
  ttl_keeps = ground arith

  texts_keep : ((set_texts vs m).priority ≡ m.priority) × ((set_texts vs m).durable ≡ m.durable)
  unfolding set_texts
  texts_keep = ground arith

  ttl_takes :
      (set_ttl vs m).ttl
      ≡ (if is_set (codes "msg-ttl") vs then as_ulong (get (codes "msg-ttl") vs) else 0)
  unfolding set_ttl
  ttl_takes = ground arith

  priority_takes : (set_priority vs m).priority ≡ (
      if is_set (codes "msg-priority") vs
      then low_byte (as_int (get (codes "msg-priority") vs))
      else m.priority)
  unfolding set_priority
  priority_takes = ground arith

  durable_takes : (set_durable vs m).durable ≡ chosen_durable vs m.durable
  unfolding set_durable
  durable_takes = ground arith

pub set_message_options-IsFilled :
    (fresh : Message) (vs : Values) → IsFilled fresh vs (set_message_options vs fresh)
unfolding set_message_options
set_message_options-IsFilled fresh vs =
    let m1 : Message = set_texts vs fresh in
    let m2 : Message = set_ttl vs m1 in
    let m3 : Message = set_user vs m2 in
    let m4 : Message = set_priority vs m3 in
    let m5 : Message = set_durable vs m4 in
    let below_priority : m3.priority ≡ fresh.priority =
      (user_keeps vs m2).1 ∙ (ttl_keeps vs m1).0 ∙ (texts_keep vs fresh).0 in
    let below_durable : m4.durable ≡ fresh.durable =
      (priority_keeps vs m3).1
      ∙ (user_keeps vs m2).2
      ∙ (ttl_keeps vs m1).1
      ∙ (texts_keep vs fresh).1 in
    record {
      ttl =
          (groups_keep vs m5).0
          ∙ (durable_keeps vs m4).0
          ∙ (priority_keeps vs m3).0
          ∙ (user_keeps vs m2).0
          ∙ ttl_takes vs m1;
      priority =
          (groups_keep vs m5).1
          ∙ (durable_keeps vs m4).1
          ∙ priority_takes vs m3
          ∙ ap
              (λ n.
                if is_set (codes "msg-priority") vs
                then low_byte (as_int (get (codes "msg-priority") vs))
                else n)
              below_priority;
      durable = (groups_keep vs m5).2 ∙ durable_takes vs m4 ∙ ap (chosen_durable vs) below_durable;
    }
