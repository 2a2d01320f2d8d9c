-- ===== src/Uri/Tests.antt =====
-- The parser of src/common/UriParser.cpp on three URLs.
use cli_cpp.Prelude.{◌≡◌, some, [], ◌++◌, arith, codes}
use cli_cpp.Uri.{fresh, parse}
use cli_cpp.Uri.Render.{Parts, IsProper, render}
use cli_cpp.Uri.RoundTrip.{parse-render}
use cli_cpp.Uri.Ports.{broker_url, IsBrokerUrl, parse-no_path}

abbrev all_parts : Parts
all_parts = record {
  scheme = codes "amqp";
  user = codes "me";
  password = codes "pw";
  host = codes "h";
  port = codes "5672";
  path = codes "q";
  query = codes "x";
  fragment = codes "f";
}

all_parts-IsProper : IsProper all_parts
all_parts-IsProper = ground arith

parse-render_example :
    parse fresh (render all_parts)
    ≡ some (record {
      uri = codes "amqp://me:pw@h:5672/q?x#f";
      scheme = codes "amqp";
      user = codes "me";
      password = codes "pw";
      host = codes "h";
      port = codes "5672";
      path = codes "q";
      query = codes "x";
      fragment = codes "f";
    })
parse-render_example = parse-render fresh all_parts all_parts-IsProper

with_path-IsBrokerUrl :
    IsBrokerUrl (codes "amqp") (codes "h") (codes "5672") (codes "/" ++ codes "q")
with_path-IsBrokerUrl = ground arith

no_path-IsBrokerUrl : IsBrokerUrl (codes "amqp") (codes "h") (codes "5672") []
no_path-IsBrokerUrl = ground arith

-- The port of amqp://h:5672 is not 5672.
parse-no_path_example :
    parse fresh (broker_url (codes "amqp") (codes "h") (codes "5672") [])
    ≡ some (record fresh {
      uri = codes "amqp://h:5672";
      scheme = codes "amqp";
      host = codes "h";
      port = codes "mqp://h:5672";
    })
parse-no_path_example =
    parse-no_path fresh (codes "amqp") (codes "h") (codes "5672") no_path-IsBrokerUrl
