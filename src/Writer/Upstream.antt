-- ===== src/Writer/Upstream.antt =====
-- src/common/formatter/UpstreamWriter.cpp and UpstreamWriter.h: the writer of the format of proton's own clients. Its writes of
-- texts, pairs and errors are those of DictWriter.
use cli_cpp.Prelude.{Str, codes, ◌++◌}
use cli_cpp.Writer.{Writer}
use cli_cpp.Writer.Dict.{write_text, write_key_value, write_error}

unfoldable pub upstream_writer : Writer Str
unfolding write_text write_key_value write_error
upstream_writer = record {
  start = λ s. s ++ codes "Message(";
  stop = λ s. s ++ codes ")";
  separate = λ s. s;
  start_header = λ s. s;
  end_header = λ s. s;
  start_properties = λ s. s ++ codes "properties=";
  end_properties = λ s. s;
  start_content = λ s. (s ++ codes ", ") ++ codes "content=";
  end_content = λ s. s;
  start_map = λ s. s ++ codes "{";
  end_map = λ s. s ++ codes "}";
  start_list = λ s. s ++ codes "{";
  end_list = λ s. s ++ codes "}";
  start_statistics = λ s. s;
  end_statistics = λ s. s;
  end_field = λ s. s ++ codes ", ";
  write = write_text;
  write_pair = write_key_value;
  write_bogus = write_error;
}
