-- ===== src/Samples.antt =====
-- Settings of a handler for amqp://h:5672/q, with which the tests of the handlers of
-- src/api/qpid-proton/reactor/handler run.
use cli_cpp.Prelude.{true, false, [], codes}
use cli_cpp.Prelude.Int.{pos, negsuc}
use cli_cpp.Uri.{Uri}
use cli_cpp.Handler.{Settings}

abbrev pub sample_url : Uri
sample_url = record {
  uri = codes "amqp://h:5672/q";
  scheme = codes "amqp";
  user = [];
  password = [];
  host = codes "h";
  port = codes "5672";
  path = codes "q";
  query = [];
  fragment = [];
}

abbrev pub sample_settings : Settings
sample_settings = record {
  broker_url = sample_url;
  conn_urls = [];
  is_topic = false;
  user = codes "me";
  password = codes "pw";
  sasl_mechanisms = codes "PLAIN";
  conn_sasl_enabled = codes "true";
  conn_ssl_certificate = [];
  conn_ssl_private_key = [];
  conn_ssl_password = [];
  conn_ssl_trust_store = [];
  conn_ssl_verify_peer = true;
  conn_ssl_verify_peer_name = false;
  conn_reconnect = codes "true";
  conn_reconnect_interval = pos 10;
  conn_reconnect_limit = pos 0;
  conn_reconnect_timeout = negsuc 0;
  conn_reconnect_first = 0;
  conn_reconnect_increment = 100;
  conn_reconnect_doubling = true;
  conn_reconnect_custom = true;
  conn_heartbeat = 0;
  max_frame_size = 4294967295;
  conn_use_config_file = false;
  log_msgs = codes "dict";
}
