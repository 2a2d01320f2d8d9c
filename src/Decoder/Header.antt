-- ===== src/Decoder/Header.antt =====
-- The header that src/api/qpid-proton/reactor/formatter/ReactorDecoder.cpp writes, as a dictionary.
use cli_cpp.Prelude.{
  ◌≡◌, ap, ◌∙◌, inl, inr, true, List, [], ◌∷◌, ◌++◌, append_assoc, Str, codes, str_eq, Bool-cases,
  Option-cases,
}
use cli_cpp.CppString.{decimal}
use cli_cpp.Writer.Dict.{dict_writer, write_text, write_key_value}
use cli_cpp.Decoder.{
  Message, MessageId, decode_string, write_raw, write_string, write_message_id, decode_header,
}
use cli_cpp.Decoder.Dictionary.{quoted, id_text, header_text, header}

-- A stream with fields behind it.
pub record Adds (l : List (Str × Str)) (s t : Str) : Type 0 where
  pub behind : t ≡ s ++ header_text l

write_raw-Adds :
    (name shown s : Str) → Adds ((name, shown) ∷ []) s (write_raw dict_writer name shown s)
unfolding write_raw write_text dict_writer
write_raw-Adds name shown s = record { behind = simp append_assoc }

write_pair-Adds :
    (name t s : Str)
    → Adds ((name, codes "'" ++ (t ++ codes "'")) ∷ []) s (dict_writer.write_pair (name, t) true s)
unfolding dict_writer write_key_value write_text
write_pair-Adds name t s = record { behind = simp append_assoc }

write_string-Adds :
    (name value s : Str)
    → Adds ((name, quoted value) ∷ []) s (write_string dict_writer name value s)
unfolding write_string decode_string
write_string-Adds name value s = elim (Bool-cases (str_eq value [])) [
  | inl e ↦ rw e (write_raw-Adds name _ s)
  | inr e ↦ rw e (write_pair-Adds name value s)
]

write_message_id-Adds :
    (name : Str) (i : MessageId) (s : Str)
    → Adds ((name, id_text i) ∷ []) s (write_message_id dict_writer name i s)
unfolding write_message_id
write_message_id-Adds name i s = elim (Bool-cases i.is_empty) [
  | inl e ↦ rw e (write_raw-Adds name _ s)
  | inr e ↦ rw e (elim (Option-cases i.as_uint64) [
    | inr (n, a) ↦ rw a (write_pair-Adds name (decimal n) s)
    | inl a ↦ rw a (elim (Option-cases i.as_string) [
      | inr (t, b) ↦ rw b (write_string-Adds name t s)
      | inl b ↦ rw b (elim (Option-cases i.as_uuid) [
        | inr (t, c) ↦ rw c (write_string-Adds name t s)
        | inl c ↦ rw c (write_raw-Adds name _ s)
      ])
    ])
  ])
]

Adds-cons :
    {f : Str × Str} {l : List (Str × Str)} {s t u : Str}
    → Adds (f ∷ []) s t
    → Adds l t u
    → Adds (f ∷ l) s u
Adds-cons {f = (name, shown)} {l = l} {s = s} a b = record {
  behind = b.behind ∙ ap (λ x. x ++ header_text l) a.behind ∙ (simp append_assoc);
}

pub decode_header-Adds : (m : Message) (s : Str) → Adds (header m) s (decode_header dict_writer m s)
unfolding decode_header
decode_header-Adds m s = Adds-cons (write_raw-Adds _ _ s) (
    Adds-cons (write_string-Adds _ _ _) (
      Adds-cons (write_string-Adds _ _ _) (
        Adds-cons (write_string-Adds _ _ _) (
          Adds-cons (write_string-Adds _ _ _) (
            Adds-cons (write_message_id-Adds _ _ _) (
              Adds-cons (write_message_id-Adds _ _ _) (
                Adds-cons (write_raw-Adds _ _ _)
                  (Adds-cons (write_raw-Adds _ _ _) (write_raw-Adds _ _ _)))))))))
