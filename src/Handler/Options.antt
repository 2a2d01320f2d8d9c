-- ===== src/Handler/Options.antt =====
-- Which options src/api/qpid-proton/reactor/handler/CommonHandler.cpp lets reach the proton
-- library.
use cli_cpp.Prelude.{
  ◌≡◌, Bool, true, false, not, ◌||◌, none, some, List, [], ◌∷◌, arith, codes, str_eq, if◌then◌else◌,
}
use cli_cpp.Handler.{
  Settings, ConnectionOptions, no_reconnect, configure_reconnect, configure_ssl, SslCall,
  client_ssl, server_ssl, VerifyMode, anonymous_peer, verify_peer, verify_peer_name,
  connection_options,
}

-- Reconnect options reach the connection exactly if the reconnect setting is "true" and no
-- reconnect value was given by the user; then they are the library's own defaults. With custom
-- values they never reach it.
pub connection_options-reconnect :
    (s : Settings)
    → (connection_options s).reconnect ≡ (
        if s.conn_reconnect_custom
        then none
        else if str_eq s.conn_reconnect (codes "true")
        then some no_reconnect
        else none)
unfolding connection_options
connection_options-reconnect s = ground arith

-- The values of the user reach the local options of configure_reconnect and nothing else.
custom_reconnect_lost :
    (s : Settings) (o : ConnectionOptions)
    → s.conn_reconnect_custom ≡ true
    → (configure_reconnect s o).1 ≡ o
unfolding configure_reconnect
custom_reconnect_lost s o h = ground arith

abbrev pub WithMode : VerifyMode → List SslCall → Type 0
WithMode m [] = Unit
WithMode m (client_ssl n ∷ cs) = (n ≡ m) × WithMode m cs
WithMode m (server_ssl c k p t n ∷ cs) = (n ≡ m) × WithMode m cs

abbrev pub has_client : List SslCall → Bool
has_client [] = false
has_client (client_ssl m ∷ cs) = true
has_client (server_ssl c k p t m ∷ cs) = has_client cs

-- Every SSL setup verifies the peer's name if that is asked for, else the peer if that is asked
-- for, and the client side is set up exactly if one of the two is asked for or a trust store given.
pub configure_ssl-verifies :
    (s : Settings)
    → WithMode
        (if s.conn_ssl_verify_peer_name
          then verify_peer_name
          else if s.conn_ssl_verify_peer
          then verify_peer
          else anonymous_peer)
        (configure_ssl s)
      × (has_client (configure_ssl s) ≡ (
          not (str_eq s.conn_ssl_trust_store [])
          || (s.conn_ssl_verify_peer_name || s.conn_ssl_verify_peer)))
unfolding configure_ssl
configure_ssl-verifies s = ground arith
