-- ===== src/Decoder/Content.antt =====
-- The properties and the content that src/api/qpid-proton/reactor/formatter/ReactorDecoder.cpp writes through a
-- writer that puts texts behind each other, as both DictWriter.cpp and UpstreamWriter.cpp do.
use mathlib.Core.Option
use mathlib.Core.Option.{some-injective, none-ne-some}
use cli_cpp.Prelude.{
  ℕ, ◌+◌, ◌<◌, ◌≡◌, refl, sym, ap, ◌∙◌, inl, inr, true, false, Option, none, some, List, [], ◌∷◌,
  ◌++◌, map, arith, append_assoc, append-nil, Str, codes, str_eq, ltb, if◌then◌else◌, Bool-cases,
  Option-cases, length, lt→ltb, le→ltb_false,
}
use cli_cpp.Formatter.Joins.{joined}
use cli_cpp.Writer.{Writer}
use cli_cpp.Writer.Dict.{dict_writer, write_text}
use cli_cpp.Writer.Upstream.{upstream_writer}
use cli_cpp.Decoder.{
  Message, Leaf, Element, Body, single, list_of, map_of, other_map, decode_leaf, decode_element,
  next_index, property_entries, write_properties, list_elements, map_elements, decode_value,
  write_content, decode_content,
}
use cli_cpp.Decoder.Entries.{texts, loop-joined}
use cli_cpp.Decoder.Dictionary.{property_text, entry_text, content_text, body_size}

-- A writer that puts texts behind each other.
pub record IsPlain (w : Writer Str) : Type 0 where
  pub raw : (t s : Str) → w.write t true s ≡ s ++ t
  pub field : (s : Str) → w.end_field s ≡ s ++ codes ", "
  pub starts : (s : Str) → w.start_map s ≡ s ++ codes "{"
  pub ends : (s : Str) → w.end_map s ≡ s ++ codes "}"

pub dict_writer-IsPlain : IsPlain dict_writer
unfolding dict_writer write_text
dict_writer-IsPlain = record {
  raw = λ t s. refl;
  field = λ s. refl;
  starts = λ s. refl;
  ends = λ s. refl;
}

pub upstream_writer-IsPlain : IsPlain upstream_writer
unfolding upstream_writer write_text
upstream_writer-IsPlain = record {
  raw = λ t s. refl;
  field = λ s. refl;
  starts = λ s. refl;
  ends = λ s. refl;
}

pub map_twice :
    {A B C D : Type 0} (f : B → D) (g : A → B) (h : C → D) (k : A → C)
    → ((a : A) → f (g a) ≡ h (k a))
    → (o : Option A) → Option.map f (Option.map g o) ≡ Option.map h (Option.map k o)
map_twice f g h k e none = refl
map_twice f g h k e (some a) = ap some (e a)

module _ (w : Writer Str) (plain : IsPlain w) where
  open plain use {raw, field, starts, ends}

  property_entries_text :
      (size index : ℕ) (props : List (Str × Leaf)) (s : Str)
      → index + length props ≡ size
      → property_entries w size index props s ≡ s ++ joined (map property_text props)
  unfolding property_entries
  property_entries_text size index [] s h = sym (append-nil s)
  property_entries_text size index ((k, v) ∷ []) s h =
      rw (le→ltb_false (index + 1) size (omega arith)) (simp (raw, append_assoc))
  property_entries_text size index ((k, v) ∷ (p ∷ props)) s h =
      rw (lt→ltb (index + 1) size (omega arith)) (
        property_entries_text size (index + 1) (p ∷ props) _ (omega arith)
        ∙ (simp (raw, append_assoc)))

  pub write_properties_text :
      (m : Message) (s : Str)
      → write_properties w m s
        ≡ s ++ (codes "{" ++ (joined (map property_text m.properties) ++ codes "}"))
  unfolding write_properties
  write_properties_text m s =
      ends _
      ∙ ap (λ x. x ++ codes "}") (property_entries_text _ 0 m.properties _ (omega arith))
      ∙ simp (starts, append_assoc)

  list_elements_text :
      (l : List Element) (s : Str)
      → length l < 4294967296
      → list_elements w (length l) 1 l s
        ≡ Option.map (λ ts. s ++ joined ts) (texts decode_element l)
  unfolding list_elements
  list_elements_text l s b =
      loop-joined decode_element (length l) (list_elements w (length l)) (λ i s. refl)
        (λ i x l s e. rw (e, list_elements) refl)
        (λ i x l s t e. rw (e, list_elements, field, raw) refl) 1 l s (omega arith) b

  module _ (left right between : Str) (starts_list : (s : Str) → w.start_list s ≡ s ++ left)
      (ends_list : (s : Str) → w.end_list s ≡ s ++ right)
      (key : (k s : Str)
        → w.separate (w.write k false s) ≡ s ++ (codes "'" ++ (k ++ (codes "'" ++ between)))) where
    map_throws :
        (size i : ℕ) (k : Str) (v : Element) (l : List (Str × Element)) (s : Str)
        → entry_text between (k, v) ≡ none
        → map_elements w size i ((k, v) ∷ l) s ≡ none
    unfolding map_elements
    map_throws size i k v l s e = elim (Option-cases (decode_element v)) [
      | inl d ↦ rw (d, map_elements) refl
      | inr (t, d) ↦ absurd (none-ne-some _ (sym e ∙ ap (Option.map _) d))
    ]

    map_puts :
        (size i : ℕ) (k : Str) (v : Element) (l : List (Str × Element)) (s t : Str)
        → entry_text between (k, v) ≡ some t
        → map_elements w size i ((k, v) ∷ l) s
          ≡ map_elements w size
              (next_index i)
              l
              (if ltb i size then (s ++ t) ++ codes ", " else s ++ t)
    unfolding map_elements
    map_puts size i k v l s t e = elim (Option-cases (decode_element v)) [
      | inl d ↦ absurd (none-ne-some t (ap (Option.map _) (sym d) ∙ e))
      | inr (u, d) ↦
          let shown : s ++ t ≡ w.write u true (w.separate (w.write k false s)) =
            ap (◌++◌ s) (some-injective _ _ (sym e ∙ ap (Option.map _) d))
            ∙ (simp (raw, key, append_assoc)) in
          rw (d, map_elements, shown, field) refl
    ]

    map_elements_text :
        (m : List (Str × Element)) (s : Str)
        → length m < 4294967296
        → map_elements w (length m) 1 m s
          ≡ Option.map (λ ts. s ++ joined ts) (texts (entry_text between) m)
    unfolding map_elements
    map_elements_text m s b =
        loop-joined (entry_text between) (length m) (map_elements w (length m)) (λ i s. refl)
          (λ i x l s e. map_throws (length m) i x.0 x.1 l s e)
          (λ i x l s t e. map_puts (length m) i x.0 x.1 l s t e) 1 m s (omega arith) b

    decode_value_list :
        (l : List Element) (s : Str)
        → length l < 4294967296
        → decode_value w (list_of l) s
          ≡ Option.map (◌++◌ s) (content_text left right between (list_of l))
    unfolding decode_value
    decode_value_list l s b =
        ap (Option.map w.end_list) (list_elements_text l (w.start_list s) b)
        ∙ map_twice _ _ _ _ (λ ts. simp (ends_list, starts_list, append_assoc)) _

    decode_value_map :
        (m : List (Str × Element)) (s : Str)
        → length m < 4294967296
        → decode_value w (map_of m) s
          ≡ Option.map (◌++◌ s) (content_text left right between (map_of m))
    unfolding decode_value
    decode_value_map m s b =
        ap (Option.map w.end_map) (map_elements_text m (w.start_map s) b)
        ∙ map_twice _ _ _ _ (λ ts. simp (ends, starts, append_assoc)) _

    content_of :
        (m : Message) (b : Body) (s : Str)
        → m.body ≡ b
        → body_size b < 4294967296
        → decode_content w m s ≡ Option.map (◌++◌ s) (content_text left right between b)
    unfolding decode_content write_content
    content_of m (single v) s e h = elim (Bool-cases (str_eq (decode_leaf v) [])) [
      | inl q ↦ rw (e, q) (ap some (raw _ s))
      | inr q ↦ rw (e, q) (ap some (raw _ s))
    ]
    content_of m (list_of l) s e h = rw e (decode_value_list l s h)
    content_of m (map_of l) s e h = rw e (decode_value_map l s h)
    content_of m other_map s e h = rw e refl

    pub decode_content_text :
        (m : Message) (s : Str)
        → body_size m.body < 4294967296
        → decode_content w m s ≡ Option.map (◌++◌ s) (content_text left right between m.body)
    decode_content_text m s h = content_of m m.body s refl h
