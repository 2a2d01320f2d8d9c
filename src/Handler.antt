-- ===== src/Handler.antt =====
-- What the three handlers of src/api/qpid-proton/reactor/handler share: the settings of
-- CommonHandler, and the connection options that it and `on_container_start` prepare.
-- The proton library is not modelled: each call of it is a value that records its arguments.
pub mod Options
mod Tests
use cli_cpp.Prelude.{
  ℕ, zero, suc, ◌+◌, ◌-◌, ◌*◌, ◌/◌, ◌%◌, ◌≤◌, ◌<◌, String, ◌≡◌, refl, sym, ap, ◌∙◌, subst, ◌≢◌, ◌↔◌,
  ◌⊎◌, inl, inr, Bool, true, false, not, ◌&&◌, ◌||◌, Option, none, some, List, [], ◌∷◌, ◌++◌, map,
  foldl, append-nil, append_assoc, arith, Str, codes, str_eq, str_lt, str_eq→eq, str_eq_refl,
  ne→str_eq, ltb, leb, ◌==◌, if◌then◌else◌, ltb→lt, lt→ltb, leb→le, le→leb, lt→leb_false, eq→==,
  ne→==, ==→eq, Bool-cases, Option-cases, length, take, drop, length-append, take-length_append,
  drop-length_append, take-all, length-drop-le,
}
use cli_cpp.Prelude.Int.{ℤ}
use cli_cpp.Timer.{Timer}
use cli_cpp.Uri.{Uri}

-- The fields of the class CommonHandler, less the pointers that proton hands over. `broker_url`
-- is parsed by its constructor.
pub record Settings : Type 0 where
  pub broker_url : Uri
  pub conn_urls : List Str
  pub is_topic : Bool
  pub user : Str
  pub password : Str
  pub sasl_mechanisms : Str
  pub conn_sasl_enabled : Str
  pub conn_ssl_certificate : Str
  pub conn_ssl_private_key : Str
  pub conn_ssl_password : Str
  pub conn_ssl_trust_store : Str
  pub conn_ssl_verify_peer : Bool
  pub conn_ssl_verify_peer_name : Bool
  pub conn_reconnect : Str
  pub conn_reconnect_interval : ℤ
  pub conn_reconnect_limit : ℤ
  pub conn_reconnect_timeout : ℤ
  pub conn_reconnect_first : ℕ
  pub conn_reconnect_increment : ℕ
  pub conn_reconnect_doubling : Bool
  pub conn_reconnect_custom : Bool
  pub conn_heartbeat : ℕ
  pub max_frame_size : ℕ
  pub conn_use_config_file : Bool
  pub log_msgs : Str

-- proton::reconnect_options: what has been set on it.
pub record Reconnect : Type 0 where
  pub delay : Option ℤ
  pub doubled : Bool
  pub max_attempts : Option ℤ
  pub max_delay : Option ℤ

-- proton::connection_options: what has been set on it. The idle timeout is in milliseconds.
pub record ConnectionOptions : Type 0 where
  pub user : Option Str
  pub password : Option Str
  pub sasl_enabled : Option Bool
  pub sasl_allow_insecure_mechs : Bool
  pub sasl_allowed_mechs : Option Str
  pub max_frame_size : Option ℕ
  pub failover_urls : Option (List Str)
  pub reconnect : Option Reconnect
  pub idle_timeout : Option ℕ

abbrev pub no_reconnect : Reconnect
no_reconnect = record { delay = none; doubled = false; max_attempts = none; max_delay = none }

abbrev pub no_options : ConnectionOptions
no_options = record {
  user = none;
  password = none;
  sasl_enabled = none;
  sasl_allow_insecure_mechs = false;
  sasl_allowed_mechs = none;
  max_frame_size = none;
  failover_urls = none;
  reconnect = none;
  idle_timeout = none;
}

-- The local `ro` of configure_reconnect, in the branch with custom values.
custom_reconnect : Settings → Reconnect
custom_reconnect s = record {
  delay = some s.conn_reconnect_interval;
  doubled = s.conn_reconnect_doubling;
  max_attempts = some s.conn_reconnect_limit;
  max_delay = some s.conn_reconnect_timeout;
}

-- configure_reconnect: the `ro` that it leaves behind, and the options. The branch with custom
-- values fills `ro` and does not hand it to the options.
unfoldable pub configure_reconnect : Settings → ConnectionOptions → Reconnect × ConnectionOptions
unfolding custom_reconnect
configure_reconnect s o =
    if str_eq s.conn_reconnect (codes "true") && not s.conn_reconnect_custom
    then (no_reconnect, record o { reconnect = some no_reconnect })
    else if str_eq s.conn_reconnect (codes "true") && s.conn_reconnect_custom
    then (custom_reconnect s, o)
    else (no_reconnect, o)

pub data VerifyMode : Type 0 where
  anonymous_peer verify_peer verify_peer_name : VerifyMode

-- The calls of configure_ssl: client_connection_options with the mode, and
-- server_connection_options with certificate, key, password, trust store and mode.
pub data SslCall : Type 0 where
  client_ssl : VerifyMode → SslCall
  server_ssl : Str → Str → Str → Str → VerifyMode → SslCall

verify_mode : Settings → VerifyMode
verify_mode s =
    if s.conn_ssl_verify_peer_name
    then verify_peer_name
    else if s.conn_ssl_verify_peer
    then verify_peer
    else anonymous_peer

unfoldable pub configure_ssl : Settings → List SslCall
unfolding verify_mode
configure_ssl s =
    (if not (str_eq s.conn_ssl_trust_store [])
        || (s.conn_ssl_verify_peer_name || s.conn_ssl_verify_peer)
      then client_ssl (verify_mode s) ∷ []
      else [])
    ++ (if not (str_eq s.conn_ssl_certificate [])
        then server_ssl s.conn_ssl_certificate s.conn_ssl_private_key s.conn_ssl_password
            s.conn_ssl_trust_store (verify_mode s)
          ∷ []
        else [])

abbrev unless_empty : Str → Option Str
unless_empty s = if str_eq s [] then none else some s

-- The options that the sender and the receiver pass to `connect`.
unfoldable pub connection_options : Settings → ConnectionOptions
unfolding configure_reconnect
connection_options s =
    let o = record no_options {
      user = unless_empty s.user;
      password = unless_empty s.password;
      sasl_enabled = some (not (str_eq s.conn_sasl_enabled (codes "false")));
      sasl_allow_insecure_mechs = true;
      sasl_allowed_mechs = some s.sasl_mechanisms;
      failover_urls = some s.conn_urls;
    } in
    let o' = (configure_reconnect s o).1 in
    if s.conn_heartbeat == 0
    then o'
    else record o' { idle_timeout = some (s.conn_heartbeat * 1000) }

-- c.connect() or c.connect(uri, options)
pub data Connect : Type 0 where
  by_config_file : Connect
  to_url : Str → ConnectionOptions → Connect

unfoldable pub connect : Settings → ConnectionOptions → Connect
connect s o = if s.conn_use_config_file then by_config_file else to_url s.broker_url.uri o
