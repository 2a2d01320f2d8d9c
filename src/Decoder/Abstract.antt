-- ===== src/Decoder/Abstract.antt =====
-- What src/common/formatter/AbstractDecoder.cpp and AbstractDecoder.h have besides the functions that ReactorDecoder
-- calls: the escape of a text and the decoding of maps and lists of statistics. A char is signed.
use cli_cpp.Prelude.{
  ℕ, ◌+◌, ◌-◌, ◌/◌, ◌%◌, ◌≤◌, ◌<◌, ◌≡◌, refl, ap, ◌∙◌, ==→eq, inl, inr, Bool, true, false, ◌||◌,
  List, [], ◌∷◌, ◌++◌, map, arith, append_assoc, leb, Str, codes, ltb, ◌==◌, if◌then◌else◌,
  Bool-cases,
}
use cli_cpp.Formatter.Escapes.{escaped}
use cli_cpp.Formatter.Joins.{joined}
use cli_cpp.Writer.{Writer}
use cli_cpp.Writer.Dict.{dict_writer, write_text, write_key_value}

-- A digit of std::hex
unfoldable pub hex_digit : ℕ → ℕ
hex_digit d = if ltb d 10 then b'0' + d else b'a' + (d - 10)

-- int(*it) in hexadecimal with at least two digits, as an unsigned int
unfoldable pub hex_byte : ℕ → Str
unfolding hex_digit
hex_byte c =
    (if leb 128 c then codes "ffffff" else []) ++ (hex_digit (c / 16) ∷ hex_digit (c % 16) ∷ [])

-- quoteStringEscape
unfoldable pub quote_string_escape : Str → Str
unfolding hex_byte
quote_string_escape [] = []
quote_string_escape (c ∷ s) =
    let rest = quote_string_escape s in
    if ltb c 32 || ltb 126 c
    then codes "\\\\x" ++ (hex_byte c ++ rest)
    else if c == b'\''
    then b'\\' ∷ (c ∷ rest)
    else c ∷ rest

module _ {S : Type 0} (w : Writer S) where
  -- decodeValue(Writer *, bool)
  unfoldable pub write_bool : Bool → S → S
  write_bool b s = w.write (if b then codes "True" else codes "False") true s

  -- The loop of decodeValue(Writer *, const map<T, Y> &); the flag says whether the entry is the first.
  unfoldable pub map_pairs : Bool → List (Str × Str) → S → S
  map_pairs first [] s = s
  map_pairs first (kv ∷ l) s =
      map_pairs false l (w.write_pair kv false (if first then s else w.end_field s))

  unfoldable pub decode_map : List (Str × Str) → S → S
  unfolding map_pairs
  decode_map [] s = s
  decode_map (kv ∷ l) s = w.end_map (map_pairs true (kv ∷ l) (w.start_map s))

  -- decodeStatistics
  unfoldable pub decode_statistics : List (Str × Str) → S → S
  unfolding decode_map
  decode_statistics l s = decode_map l s

  -- decodeValue(Writer *, const list<T> &), for a list of texts
  unfoldable pub list_texts : List Str → S → S
  list_texts [] s = s
  list_texts (t ∷ l) s = list_texts l (w.write t false s)

  unfoldable pub decode_list : List Str → S → S
  unfolding list_texts
  decode_list [] s = s
  decode_list (t ∷ l) s = w.end_list (list_texts (t ∷ l) (w.start_list s))

-- All bytes are from the space to the tilde.
abbrev pub IsPrintable : Str → Type 0
IsPrintable [] = Unit
IsPrintable (c ∷ s) = (32 ≤ c) × (c ≤ 126) × IsPrintable s

-- All are bytes.
abbrev pub IsBytes : Str → Type 0
IsBytes [] = Unit
IsBytes (c ∷ s) = (c < 256) × IsBytes s

IsPrintable-append : (s t : Str) → IsPrintable s → IsPrintable t → IsPrintable (s ++ t)
IsPrintable-append [] t h k = k
IsPrintable-append (c ∷ s) t (a, b, h) k = (a, b, IsPrintable-append s t h k)

hex_digit-le : (d : ℕ) → d < 16 → (32 ≤ hex_digit d) × (hex_digit d ≤ 126)
unfolding hex_digit
hex_digit-le d h = ground arith

hex_byte-IsPrintable : (c : ℕ) → c < 256 → IsPrintable (hex_byte c)
unfolding hex_byte
hex_byte-IsPrintable c h =
    let high = hex_digit-le (c / 16) (omega arith) in
    let low = hex_digit-le (c % 16) (omega arith) in
    IsPrintable-append (if leb 128 c then codes "ffffff" else []) _ (ground arith)
      (high.0, high.1, (low.0, low.1, tt))

-- The escape of a text of bytes is printable, and a printable text gets a backslash before each quote and no other
-- change.
pub quote_string_escape-IsPrintable :
    (s : Str)
    → IsBytes s
    → IsPrintable (quote_string_escape s) × (IsPrintable s → quote_string_escape s ≡ escaped s)
unfolding quote_string_escape escaped
quote_string_escape-IsPrintable [] h = (tt, λ p. refl)
quote_string_escape-IsPrintable (c ∷ s) (b, h) =
    let (rest, same) = quote_string_escape-IsPrintable s h in
    elim (Bool-cases (ltb c 32 || ltb 126 c)) [
      | inl e ↦ rw e (
        IsPrintable-append (codes "\\\\x") _ (ground arith)
            (IsPrintable-append (hex_byte c) _ (hex_byte-IsPrintable c b) rest),
        λ p. absurd (ground arith),
      )
      | inr e ↦ rw e (elim (Bool-cases (c == b'\'')) [
        | inl q ↦ rw q (
          (omega arith, omega arith, (ground arith, ground arith, rest)),
          λ p. ap (◌∷◌ b'\\') (rw (==→eq c b'\'' q) (ap (◌∷◌ b'\'') (same p.2))),
        )
        | inr q ↦ rw q ((ground arith, ground arith, rest), λ p. ap (◌∷◌ c) (same p.2))
      ])
    ]

abbrev pub pair_text : Str × Str → Str
pair_text (k, v) = codes "'" ++ (k ++ (codes "': '" ++ (v ++ codes "'")))

map_pairs-joined :
    (kv : Str × Str) (l : List (Str × Str)) (s : Str)
    → map_pairs dict_writer true (kv ∷ l) s ≡ s ++ joined (map pair_text (kv ∷ l))
unfolding map_pairs dict_writer write_key_value write_text
map_pairs-joined kv [] s = simp append_assoc
map_pairs-joined kv (kv' ∷ l) s = map_pairs-joined kv' l _ ∙ (simp append_assoc)

-- Statistics that are written as a dictionary are nothing if there are none, else the pairs of texts in quotes and in
-- braces, with a separator between any two of them.
pub decode_statistics-joined :
    (kv : Str × Str) (l : List (Str × Str)) (s : Str)
    → (decode_statistics dict_writer [] s ≡ s)
      × (decode_statistics dict_writer (kv ∷ l) s
          ≡ s ++ (codes "{" ++ (joined (map pair_text (kv ∷ l)) ++ codes "}")))
unfolding decode_statistics decode_map dict_writer
decode_statistics-joined kv l s =
    (refl, ap (λ t. t ++ codes "}") (map_pairs-joined kv l _) ∙ (simp append_assoc))
