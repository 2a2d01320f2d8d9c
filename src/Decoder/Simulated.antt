-- ===== src/Decoder/Simulated.antt =====
-- Decoding through two writers that agree: src/api/qpid-proton/reactor/formatter/ReactorDecoder.cpp
-- uses a writer by its operations only.
use mathlib.Core.Option
use cli_cpp.Prelude.{
  ℕ, ◌+◌, ◌≡◌, refl, ap, ◌∙◌, inl, inr, true, Option, none, some, List, [], ◌∷◌, arith, Str, str_eq,
  ltb, Bool-cases, Option-cases,
}
use cli_cpp.Writer.{Writer, Simulation, recorder, replay, replay-Simulation}
use cli_cpp.Decoder.{
  Message, MessageId, Leaf, Element, Body, single, list_of, map_of, other_map, decode_leaf,
  decode_element, next_index, write_raw, write_string, write_uint8, write_message_id, write_ttl,
  write_durable, write_redelivered, property_entries, write_properties, decode_header,
  decode_properties, list_elements, map_elements, decode_value, write_content, decode_content,
  print_dict, print_upstream,
}

module _ {S T : Type 0} (w : Writer S) (v : Writer T) (h : S → T) (sim : Simulation w v h) where
  open sim use {
    write_law, pair_law, start_map_law, end_map_law, start_list_law, end_list_law, end_field_law,
    separate_law,
  }

  write_raw_law :
      (name shown : Str) (s : S) → h (write_raw w name shown s) ≡ write_raw v name shown (h s)
  unfolding write_raw
  write_raw_law name shown s = simp write_law

  write_string_law :
      (name value : Str) (s : S) → h (write_string w name value s) ≡ write_string v name value (h s)
  unfolding write_string
  write_string_law name value s = elim (Bool-cases (str_eq value [])) [
    | inl e ↦ rw e (write_raw_law name _ s)
    | inr e ↦ rw e (pair_law _ true s)
  ]

  write_message_id_law :
      (name : Str) (i : MessageId) (s : S)
      → h (write_message_id w name i s) ≡ write_message_id v name i (h s)
  unfolding write_message_id
  write_message_id_law name i s = elim (Bool-cases i.is_empty) [
    | inl e ↦ rw e (write_raw_law name _ s)
    | inr e ↦ rw e (elim (Option-cases i.as_uint64) [
      | inr (n, a) ↦ rw a (pair_law _ true s)
      | inl a ↦ rw a (elim (Option-cases i.as_string) [
        | inr (t, b) ↦ rw b (write_string_law name t s)
        | inl b ↦ rw b (elim (Option-cases i.as_uuid) [
          | inr (t, c) ↦ rw c (write_string_law name t s)
          | inl c ↦ rw c (write_raw_law name _ s)
        ])
      ])
    ])
  ]

  property_entries_law :
      (size index : ℕ) (props : List (Str × Leaf)) (s : S)
      → h (property_entries w size index props s) ≡ property_entries v size index props (h s)
  unfolding property_entries
  property_entries_law size index [] s = refl
  property_entries_law size index ((k, x) ∷ props) s = elim (Bool-cases (ltb (index + 1) size)) [
    | inl e ↦ rw e (property_entries_law size (index + 1) props _ ∙ simp write_law)
    | inr e ↦ rw e (property_entries_law size (index + 1) props _ ∙ simp write_law)
  ]

  write_properties_law :
      (m : Message) (s : S) → h (write_properties w m s) ≡ write_properties v m (h s)
  unfolding write_properties
  write_properties_law m s = simp (end_map_law, start_map_law, property_entries_law)

  write_ttl_law : (m : Message) (s : S) → h (write_ttl w m s) ≡ write_ttl v m (h s)
  unfolding write_ttl
  write_ttl_law m s = write_raw_law _ _ s

  write_durable_law : (m : Message) (s : S) → h (write_durable w m s) ≡ write_durable v m (h s)
  unfolding write_durable
  write_durable_law m s = write_raw_law _ _ s

  write_redelivered_law :
      (m : Message) (s : S) → h (write_redelivered w m s) ≡ write_redelivered v m (h s)
  unfolding write_redelivered
  write_redelivered_law m s = write_raw_law _ _ s

  write_uint8_law :
      (name : Str) (n : ℕ) (s : S) → h (write_uint8 w name n s) ≡ write_uint8 v name n (h s)
  unfolding write_uint8
  write_uint8_law name n s = write_raw_law _ _ s

  decode_header_law : (m : Message) (s : S) → h (decode_header w m s) ≡ decode_header v m (h s)
  unfolding decode_header
  decode_header_law m s =
      write_ttl_law m _
      ∙ ap (write_ttl v m) (
          write_durable_law m _
          ∙ ap (write_durable v m) (
              write_uint8_law _ _ _
              ∙ ap (write_uint8 v _ _) (
                  write_message_id_law _ _ _
                  ∙ ap (write_message_id v _ _) (
                      write_message_id_law _ _ _
                      ∙ ap (write_message_id v _ _) (
                          write_string_law _ _ _
                          ∙ ap (write_string v _ _) (
                              write_string_law _ _ _
                              ∙ ap (write_string v _ _) (
                                  write_string_law _ _ _
                                  ∙ ap (write_string v _ _) (
                                      write_string_law _ _ _
                                      ∙ ap (write_string v _ _) (write_redelivered_law m s)))))))))

  decode_properties_law :
      (m : Message) (s : S) → h (decode_properties w m s) ≡ decode_properties v m (h s)
  unfolding decode_properties
  decode_properties_law m s =
      simp (write_properties_law, sim.start_properties_law, sim.end_properties_law)

  list_elements_law :
      (size index : ℕ) (l : List Element) (s : S)
      → Option.map h (list_elements w size index l s) ≡ list_elements v size index l (h s)
  unfolding list_elements
  list_elements_law size index [] s = refl
  list_elements_law size index (x ∷ l) s = elim (Option-cases (decode_element x)) [
    | inl e ↦ rw (e, list_elements, Option.map) refl
    | inr (t, e) ↦
        rw (e, list_elements, Option.map)
          (elim (Bool-cases (ltb index size)) [
            | inl b ↦
                rw b
                  (list_elements_law size (next_index index) l _ ∙ simp (write_law, end_field_law))
            | inr b ↦ rw b (list_elements_law size (next_index index) l _ ∙ simp write_law)
          ])
  ]

  map_elements_law :
      (size index : ℕ) (l : List (Str × Element)) (s : S)
      → Option.map h (map_elements w size index l s) ≡ map_elements v size index l (h s)
  unfolding map_elements
  map_elements_law size index [] s = refl
  map_elements_law size index ((k, x) ∷ l) s = elim (Option-cases (decode_element x)) [
    | inl e ↦ rw (e, map_elements, Option.map) refl
    | inr (t, e) ↦
        rw (e, map_elements, Option.map)
          (elim (Bool-cases (ltb index size)) [
            | inl b ↦ rw b (
                map_elements_law size (next_index index) l _
                ∙ simp (write_law, end_field_law, separate_law))
            | inr b ↦
                rw b (map_elements_law size (next_index index) l _ ∙ simp (write_law, separate_law))
          ])
  ]

  map_after :
      (f : S → S) (g : T → T)
      → ((s : S) → h (f s) ≡ g (h s))
      → (o : Option S) → Option.map h (Option.map f o) ≡ Option.map g (Option.map h o)
  map_after f g law none = refl
  map_after f g law (some s) = ap some (law s)

  decode_value_law : (b : Body) (s : S) → Option.map h (decode_value w b s) ≡ decode_value v b (h s)
  unfolding decode_value
  decode_value_law (single x) s = refl
  decode_value_law (list_of l) s =
      map_after w.end_list v.end_list end_list_law _ ∙ simp (list_elements_law, start_list_law)
  decode_value_law (map_of l) s =
      map_after w.end_map v.end_map end_map_law _ ∙ simp (map_elements_law, start_map_law)
  decode_value_law other_map s = refl

  write_content_law : (t : Str) (s : S) → h (write_content w t s) ≡ write_content v t (h s)
  unfolding write_content
  write_content_law t s = grind (arith, write_law)

  body_law :
      (m : Message) (b : Body) (s : S)
      → m.body ≡ b
      → Option.map h (decode_content w m s) ≡ decode_content v m (h s)
  unfolding decode_content
  body_law m (single x) s e = rw e (ap some (write_content_law (decode_leaf x) s))
  body_law m (list_of l) s e = rw e (decode_value_law (list_of l) s)
  body_law m (map_of l) s e = rw e (decode_value_law (map_of l) s)
  body_law m other_map s e = rw e refl

  -- Both formatters, on streams that a map takes to one another.
  print_dict_law : (m : Message) (s : S) → Option.map h (print_dict w m s) ≡ print_dict v m (h s)
  unfolding print_dict
  print_dict_law m s =
      map_after w.end_content v.end_content sim.end_content_law _
      ∙ ap (Option.map v.end_content) (
          body_law m m.body _ refl
          ∙ ap (decode_content v m) (
              sim.start_content_law _
              ∙ ap v.start_content (
                  decode_properties_law m _
                  ∙ ap (decode_properties v m)
                      (decode_header_law m _ ∙ ap (decode_header v m) (sim.start_header_law s)))))

  print_upstream_law :
      (m : Message) (s : S) → Option.map h (print_upstream w m s) ≡ print_upstream v m (h s)
  unfolding print_upstream
  print_upstream_law m s =
      map_after (λ s'. w.stop (w.end_content s')) (λ s'. v.stop (v.end_content s'))
        (λ s'. simp (sim.stop_law, sim.end_content_law)) _
      ∙ ap (Option.map (λ s'. v.stop (v.end_content s'))) (body_law m m.body _ refl)
      ∙ simp (sim.start_content_law, decode_properties_law, sim.start_law)

-- Through every writer, both formatters do what replaying the calls does that they make of a writer that
-- only records them: they throw for the same messages, and their calls do not depend on what is written.
pub print_dict-replay :
    {S : Type 0} (w : Writer S) (m : Message) (s : S)
    → (Option.map (replay w s) (print_dict recorder m []) ≡ print_dict w m s)
      × (Option.map (replay w s) (print_upstream recorder m []) ≡ print_upstream w m s)
unfolding replay
print_dict-replay w m s = (
  print_dict_law recorder w (replay w s) (replay-Simulation w s) m [],
  print_upstream_law recorder w (replay w s) (replay-Simulation w s) m [],
)
