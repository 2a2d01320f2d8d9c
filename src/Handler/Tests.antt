-- ===== src/Handler/Tests.antt =====
-- The connection options of src/api/qpid-proton/reactor/handler/CommonHandler.cpp on settings with
-- custom reconnect values.
use cli_cpp.Prelude.{◌≡◌, true, none, str_eq}
use cli_cpp.Samples.{sample_settings}
use cli_cpp.Handler.{connection_options, configure_ssl, verify_peer}
use cli_cpp.Handler.Options.{
  WithMode, has_client, connection_options-reconnect, configure_ssl-verifies,
}

-- The custom values are lost.
connection_options-reconnect_example : (connection_options sample_settings).reconnect ≡ none
connection_options-reconnect_example = connection_options-reconnect sample_settings

configure_ssl-verifies_example :
    WithMode verify_peer (configure_ssl sample_settings)
    × (has_client (configure_ssl sample_settings) ≡ true)
unfolding str_eq
configure_ssl-verifies_example = configure_ssl-verifies sample_settings
