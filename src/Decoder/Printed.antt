-- ===== src/Decoder/Printed.antt =====
-- printMessage of src/common/formatter/DictFormatter.cpp and of UpstreamFormatter.cpp with the writers of their
-- formats.
use mathlib.Core.Option
use mathlib.Core.Option.{some-injective, none-ne-some}
use cli_cpp.Prelude.{
  ◌<◌, ◌≡◌, refl, ap, ◌∙◌, false, Option, none, some, [], ◌++◌, append_assoc, Str, codes,
}
use cli_cpp.Writer.Dict.{dict_writer, write_text}
use cli_cpp.Writer.Upstream.{upstream_writer}
use cli_cpp.Decoder.{Message, decode_header, decode_properties, print_dict, print_upstream}
use cli_cpp.Decoder.Dictionary.{content_text, body_size, dictionary, upstream}
use cli_cpp.Decoder.Header.{decode_header-Adds}
use cli_cpp.Decoder.Content.{
  dict_writer-IsPlain, upstream_writer-IsPlain, write_properties_text, decode_content_text,
}

map_once :
    {A B C : Type 0} (f : B → C) (g : A → B) (h : A → C)
    → ((a : A) → f (g a) ≡ h a)
    → (o : Option A) → Option.map f (Option.map g o) ≡ Option.map h o
map_once f g h e none = refl
map_once f g h e (some a) = ap some (e a)

dict_key :
    (k s : Str)
    → dict_writer.separate (dict_writer.write k false s)
      ≡ s ++ (codes "'" ++ (k ++ (codes "'" ++ codes ": ")))
unfolding dict_writer write_text
dict_key k s = simp append_assoc

upstream_key :
    (k s : Str)
    → upstream_writer.separate (upstream_writer.write k false s)
      ≡ s ++ (codes "'" ++ (k ++ (codes "'" ++ [])))
unfolding upstream_writer write_text
upstream_key k s = refl

-- The stream in front of the content.
dict_start : (m : Message) (s : Str) → Str
dict_start m s =
    dict_writer.start_content
      (decode_properties dict_writer m (decode_header dict_writer m (dict_writer.start_header s)))

upstream_start : (m : Message) (s : Str) → Str
upstream_start m s =
    upstream_writer.start_content (decode_properties upstream_writer m (upstream_writer.start s))

dict_closed :
    (m : Message) (s c : Str) → dict_writer.end_content (dict_start m s ++ c) ≡ s ++ dictionary m c
unfolding dict_start decode_properties dict_writer write_text
dict_closed m s c =
    rw (write_properties_text dict_writer dict_writer-IsPlain m _, (decode_header-Adds m _).behind)
      (simp append_assoc)

upstream_closed :
    (m : Message) (s c : Str)
    → upstream_writer.stop (upstream_writer.end_content (upstream_start m s ++ c))
      ≡ s ++ upstream m c
unfolding upstream_start decode_properties upstream_writer write_text
upstream_closed m s c =
    rw (write_properties_text upstream_writer upstream_writer-IsPlain m _) (simp append_assoc)

-- What DictFormatter::printMessage writes through a DictWriter is the dictionary of the message: the fields of the
-- header with their values, the properties and the content. It throws for exactly the contents that have no text.
-- A list or a map in the body has less than 2^32 entries.
pub print_dict-dictionary :
    (m : Message) (s : Str)
    → body_size m.body < 4294967296
    → print_dict dict_writer m s
      ≡ Option.map
          (λ c. s ++ dictionary m c)
          (content_text (codes "[") (codes "]") (codes ": ") m.body)
unfolding print_dict dict_start dict_writer
print_dict-dictionary m s h =
    ap (Option.map dict_writer.end_content) (
      decode_content_text dict_writer dict_writer-IsPlain (codes "[") (codes "]") (codes ": ")
        (λ t. refl) (λ t. refl) dict_key m (dict_start m s) h)
    ∙ map_once dict_writer.end_content (◌++◌ (dict_start m s)) (λ c. s ++ dictionary m c)
        (dict_closed m s) _

-- What UpstreamFormatter::printMessage writes through an UpstreamWriter has the properties and the content but no
-- header; a list is in braces as a map is, and nothing stands between a key of a map and its value. A list or a map
-- in the body has less than 2^32 entries.
pub print_upstream-upstream :
    (m : Message) (s : Str)
    → body_size m.body < 4294967296
    → print_upstream upstream_writer m s
      ≡ Option.map (λ c. s ++ upstream m c) (content_text (codes "{") (codes "}") [] m.body)
unfolding print_upstream upstream_start upstream_writer
print_upstream-upstream m s h =
    ap (Option.map (λ s'. upstream_writer.stop (upstream_writer.end_content s'))) (
      decode_content_text upstream_writer upstream_writer-IsPlain (codes "{") (codes "}") []
        (λ t. refl) (λ t. refl) upstream_key m (upstream_start m s) h)
    ∙ map_once _ (◌++◌ (upstream_start m s)) (λ c. s ++ upstream m c) (upstream_closed m s) _
