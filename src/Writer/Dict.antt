-- ===== src/Writer/Dict.antt =====
-- src/common/formatter/DictWriter.cpp: the writer of dictionaries of Python. The stream is the text that has been written.
use cli_cpp.Prelude.{Str, codes, Bool, false, ◌++◌, if◌then◌else◌}
use cli_cpp.Writer.{Writer}

-- The writes that DictWriter and UpstreamWriter share.
unfoldable pub write_text : Str → Bool → Str → Str
write_text t raw s = if raw then s ++ t else s ++ (codes "'" ++ (t ++ codes "'"))

unfoldable pub write_key_value : Str × Str → Bool → Str → Str
unfolding write_text
write_key_value (k, v) separator s =
    let s' = write_text v false (write_text k false s ++ codes ": ") in
    if separator then s' ++ codes ", " else s'

unfoldable pub write_error : Str → Str → Str
write_error t s = s ++ (codes "!!!FORMATTING ERROR, BUG!!!" ++ (codes ":" ++ t))

unfoldable pub dict_writer : Writer Str
unfolding write_text write_key_value write_error
dict_writer = record {
  start = λ s. s;
  stop = λ s. s;
  separate = λ s. s ++ codes ": ";
  start_header = λ s. s ++ codes "{";
  end_header = λ s. s ++ codes "}";
  start_properties = λ s. write_text (codes "properties") false (s ++ codes " ") ++ codes ": ";
  end_properties = λ s. s;
  start_content = λ s. write_text (codes "content") false (s ++ codes ", ") ++ codes ": ";
  end_content = λ s. s ++ codes "}";
  start_map = λ s. s ++ codes "{";
  end_map = λ s. s ++ codes "}";
  start_list = λ s. s ++ codes "[";
  end_list = λ s. s ++ codes "]";
  start_statistics = λ s. s ++ codes "STATS ";
  end_statistics = λ s. s ++ codes "}";
  end_field = λ s. s ++ codes ", ";
  write = write_text;
  write_pair = write_key_value;
  write_bogus = write_error;
}
