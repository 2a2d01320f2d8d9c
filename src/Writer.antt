-- ===== src/Writer.antt =====
-- The writers of src/common/formatter: the interface Writer.h as a record of operations on a stream,
-- a writer that records the calls, and what it is for two writers to agree. DictWriter.cpp is in
-- Writer/Dict.antt and UpstreamWriter.cpp in Writer/Upstream.antt.
pub mod Dict
pub mod Upstream
use cli_cpp.Prelude.{Str, Bool, List, [], ◌∷◌, ◌++◌, ◌≡◌, refl}

-- The class Writer, over a stream of type S. `write_pair` is the write of a KeyValue.
pub record Writer (S : Type 0) : Type 0 where
  pub start : S → S
  pub stop : S → S
  pub separate : S → S
  pub start_header : S → S
  pub end_header : S → S
  pub start_properties : S → S
  pub end_properties : S → S
  pub start_content : S → S
  pub end_content : S → S
  pub start_map : S → S
  pub end_map : S → S
  pub start_list : S → S
  pub end_list : S → S
  pub start_statistics : S → S
  pub end_statistics : S → S
  pub end_field : S → S
  pub write : Str → Bool → S → S
  pub write_pair : Str × Str → Bool → S → S
  pub write_bogus : Str → S → S

-- A call of a writer.
pub data Call : Type 0 where
  start_of stop_of separate_of start_header_of end_header_of start_properties_of end_properties_of
        start_content_of end_content_of start_map_of end_map_of start_list_of end_list_of
        start_statistics_of end_statistics_of end_field_of :
      Call
  write_of : Str → Bool → Call
  pair_of : Str × Str → Bool → Call
  bogus_of : Str → Call

-- The writer that records its calls, the last one first.
abbrev pub recorder : Writer (List Call)
recorder = record {
  start = λ l. start_of ∷ l;
  stop = λ l. stop_of ∷ l;
  separate = λ l. separate_of ∷ l;
  start_header = λ l. start_header_of ∷ l;
  end_header = λ l. end_header_of ∷ l;
  start_properties = λ l. start_properties_of ∷ l;
  end_properties = λ l. end_properties_of ∷ l;
  start_content = λ l. start_content_of ∷ l;
  end_content = λ l. end_content_of ∷ l;
  start_map = λ l. start_map_of ∷ l;
  end_map = λ l. end_map_of ∷ l;
  start_list = λ l. start_list_of ∷ l;
  end_list = λ l. end_list_of ∷ l;
  start_statistics = λ l. start_statistics_of ∷ l;
  end_statistics = λ l. end_statistics_of ∷ l;
  end_field = λ l. end_field_of ∷ l;
  write = λ s raw l. write_of s raw ∷ l;
  write_pair = λ kv sep l. pair_of kv sep ∷ l;
  write_bogus = λ s l. bogus_of s ∷ l;
}

module _ {S : Type 0} (w : Writer S) where
  unfoldable pub do_call : Call → S → S
  do_call start_of s = w.start s
  do_call stop_of s = w.stop s
  do_call separate_of s = w.separate s
  do_call start_header_of s = w.start_header s
  do_call end_header_of s = w.end_header s
  do_call start_properties_of s = w.start_properties s
  do_call end_properties_of s = w.end_properties s
  do_call start_content_of s = w.start_content s
  do_call end_content_of s = w.end_content s
  do_call start_map_of s = w.start_map s
  do_call end_map_of s = w.end_map s
  do_call start_list_of s = w.start_list s
  do_call end_list_of s = w.end_list s
  do_call start_statistics_of s = w.start_statistics s
  do_call end_statistics_of s = w.end_statistics s
  do_call end_field_of s = w.end_field s
  do_call (write_of t raw) s = w.write t raw s
  do_call (pair_of kv sep) s = w.write_pair kv sep s
  do_call (bogus_of t) s = w.write_bogus t s

  -- Making recorded calls on a stream.
  unfoldable pub replay : S → List Call → S
  unfolding do_call
  replay s [] = s
  replay s (c ∷ l) = do_call c (replay s l)

-- A map of streams that takes each operation of one writer to that of another.
pub record Simulation {S T : Type 0} (w : Writer S) (v : Writer T) (h : S → T) : Type 0 where
  pub start_law : (s : S) → h (w.start s) ≡ v.start (h s)
  pub stop_law : (s : S) → h (w.stop s) ≡ v.stop (h s)
  pub separate_law : (s : S) → h (w.separate s) ≡ v.separate (h s)
  pub start_header_law : (s : S) → h (w.start_header s) ≡ v.start_header (h s)
  pub end_header_law : (s : S) → h (w.end_header s) ≡ v.end_header (h s)
  pub start_properties_law : (s : S) → h (w.start_properties s) ≡ v.start_properties (h s)
  pub end_properties_law : (s : S) → h (w.end_properties s) ≡ v.end_properties (h s)
  pub start_content_law : (s : S) → h (w.start_content s) ≡ v.start_content (h s)
  pub end_content_law : (s : S) → h (w.end_content s) ≡ v.end_content (h s)
  pub start_map_law : (s : S) → h (w.start_map s) ≡ v.start_map (h s)
  pub end_map_law : (s : S) → h (w.end_map s) ≡ v.end_map (h s)
  pub start_list_law : (s : S) → h (w.start_list s) ≡ v.start_list (h s)
  pub end_list_law : (s : S) → h (w.end_list s) ≡ v.end_list (h s)
  pub start_statistics_law : (s : S) → h (w.start_statistics s) ≡ v.start_statistics (h s)
  pub end_statistics_law : (s : S) → h (w.end_statistics s) ≡ v.end_statistics (h s)
  pub end_field_law : (s : S) → h (w.end_field s) ≡ v.end_field (h s)
  pub write_law : (t : Str) (raw : Bool) (s : S) → h (w.write t raw s) ≡ v.write t raw (h s)
  pub pair_law :
      (kv : Str × Str) (sep : Bool) (s : S) → h (w.write_pair kv sep s) ≡ v.write_pair kv sep (h s)
  pub bogus_law : (t : Str) (s : S) → h (w.write_bogus t s) ≡ v.write_bogus t (h s)

pub replay-Simulation : {S : Type 0} (w : Writer S) (s : S) → Simulation recorder w (replay w s)
unfolding replay do_call
replay-Simulation w s = record {
  start_law = λ l. refl;
  stop_law = λ l. refl;
  separate_law = λ l. refl;
  start_header_law = λ l. refl;
  end_header_law = λ l. refl;
  start_properties_law = λ l. refl;
  end_properties_law = λ l. refl;
  start_content_law = λ l. refl;
  end_content_law = λ l. refl;
  start_map_law = λ l. refl;
  end_map_law = λ l. refl;
  start_list_law = λ l. refl;
  end_list_law = λ l. refl;
  start_statistics_law = λ l. refl;
  end_statistics_law = λ l. refl;
  end_field_law = λ l. refl;
  write_law = λ t raw l. refl;
  pair_law = λ kv sep l. refl;
  bogus_law = λ t l. refl;
}
