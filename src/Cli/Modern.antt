-- ===== src/Cli/Modern.antt =====
-- The options of src/common/options/modern/ModernOptionsParser.cpp.
use cli_cpp.Prelude.{List, [], ◌∷◌, Str, codes}
use cli_cpp.Optparse.{Opt, set_action, Parser}
use cli_cpp.Cli.{set_dest, set_type, set_help, set_metavar, new_parser, with_options}

abbrev pub modern_options : List (List Str × (Opt → Opt))
modern_options =
    (
      (codes "-b" ∷ codes "--broker-url" ∷ []),
      λ o.
          set_metavar (codes "URL")
            (set_help (codes "URL of broker to connect to") (set_dest (codes "broker-url") o)),
    )
    ∷ (
      (codes "--conn-urls" ∷ []),
      λ o.
          set_metavar (codes "CONN_URLS")
            (set_help (codes "define connection urls") (set_dest (codes "conn-urls") o)),
    )
    ∷ (
      (codes "--conn-use-config-file" ∷ []),
      λ o. set_action (codes "store_true") (
          set_type (codes "bool") (
            set_help (codes "use configuration file for connection")
              (set_dest (codes "conn-use-config-file") o))),
    )
    ∷ (
      (codes "-u" ∷ codes "--user" ∷ []),
      λ o.
          set_metavar (codes "USER")
            (set_help (codes "authenticate as USER") (set_dest (codes "user") o)),
    )
    ∷ (
      (codes "-p" ∷ codes "--password" ∷ []),
      λ o.
          set_metavar (codes "PASSWORD")
            (set_help (codes "authenticate with PASSWORD") (set_dest (codes "password") o)),
    )
    ∷ (
      (codes "--sasl-mechanisms" ∷ []),
      λ o. set_metavar (codes "MECHANISMS") (
          set_help (codes "specify the allowed MECHANISMS for use on the connection")
            (set_dest (codes "sasl-mechanisms") o)),
    )
    ∷ (
      (codes "--conn-sasl-enabled" ∷ []),
      λ o. set_metavar (codes "ENABLED") (
          set_help (codes "enable connection SASL (true/false, default: true)")
            (set_dest (codes "conn-sasl-enabled") o)),
    )
    ∷ (
      (codes "--conn-ssl-certificate" ∷ []),
      λ o. set_metavar (codes "CERTIFICATE") (
          set_help (codes "path to client certificate")
            (set_dest (codes "conn-ssl-certificate") o)),
    )
    ∷ (
      (codes "--conn-ssl-private-key" ∷ []),
      λ o. set_metavar (codes "KEY") (
          set_help (codes "path to client private key")
            (set_dest (codes "conn-ssl-private-key") o)),
    )
    ∷ (
      (codes "--conn-ssl-password" ∷ []),
      λ o. set_metavar (codes "PASSWORD") (
          set_help (codes "client's certificate database password")
            (set_dest (codes "conn-ssl-password") o)),
    )
    ∷ (
      (codes "--conn-ssl-trust-store" ∷ []),
      λ o. set_metavar (codes "STORE") (
          set_help (codes "path to client trust store")
            (set_dest (codes "conn-ssl-trust-store") o)),
    )
    ∷ (
      (codes "--conn-ssl-verify-peer" ∷ []),
      λ o. set_action (codes "store_true") (
          set_type (codes "bool") (
            set_help (codes "verifies server certificate")
              (set_dest (codes "conn-ssl-verify-peer") o))),
    )
    ∷ (
      (codes "--conn-ssl-verify-peer-name" ∷ []),
      λ o. set_action (codes "store_true") (
          set_type (codes "bool") (
            set_help (codes "verifies connection url against server hostname")
              (set_dest (codes "conn-ssl-verify-peer-name") o))),
    )
    ∷ (
      (codes "--client-log-level" ∷ []),
      λ o.
          set_metavar (codes "LEVEL")
            (set_help (codes "log LEVEL for the client") (set_dest (codes "client-log-level") o)),
    )
    ∷ (
      (codes "--close-sleep" ∷ []),
      λ o. set_metavar (codes "TIME") (
          set_type (codes "int") (
            set_help (codes "sleep before closing the connection for the specified TIME (seconds)")
              (set_dest (codes "close-sleep") o))),
    )
    ∷ (
      (codes "--conn-reconnect" ∷ []),
      λ o. set_metavar (codes "RECONNECT") (
          set_help (codes "client RECONNECT setting (true/false, default: true)")
            (set_dest (codes "conn-reconnect") o)),
    )
    ∷ (
      (codes "--conn-reconnect-interval" ∷ []),
      λ o. set_metavar (codes "INTERVAL") (
          set_help (codes "client reconnect INTERVAL (default: -1)")
            (set_dest (codes "conn-reconnect-interval") o)),
    )
    ∷ (
      (codes "--conn-reconnect-limit" ∷ []),
      λ o. set_metavar (codes "LIMIT") (
          set_help (codes "client reconnect LIMIT (default: -1)")
            (set_dest (codes "conn-reconnect-limit") o)),
    )
    ∷ (
      (codes "--conn-reconnect-timeout" ∷ []),
      λ o. set_metavar (codes "TIMEOUT") (
          set_help (codes "client reconnect TIMEOUT (default: -1)")
            (set_dest (codes "conn-reconnect-timeout") o)),
    )
    ∷ (
      (codes "--conn-reconnect-first" ∷ []),
      λ o. set_metavar (codes "FIRST") (
          set_help (codes "client reconnect FIRST (default: 0)")
            (set_dest (codes "conn-reconnect-first") o)),
    )
    ∷ (
      (codes "--conn-reconnect-increment" ∷ []),
      λ o. set_metavar (codes "INCREMENT") (
          set_help (codes "client reconnect INCREMENT (default: 100)")
            (set_dest (codes "conn-reconnect-increment") o)),
    )
    ∷ (
      (codes "--conn-reconnect-doubling" ∷ []),
      λ o. set_metavar (codes "DOUBLING") (
          set_help (codes "client reconnect DOUBLING (true/false, default: true)")
            (set_dest (codes "conn-reconnect-doubling") o)),
    )
    ∷ (
      (codes "--conn-heartbeat" ∷ []),
      λ o. set_metavar (codes "HEARTBEAT") (
          set_help (codes "enable and set connection HEARTBEAT (seconds)")
            (set_dest (codes "conn-heartbeat") o)),
    )
    ∷ (
      (codes "--trace-messages" ∷ []),
      λ o. set_action (codes "store_true") (
          set_type (codes "bool") (
            set_help (codes "enable message tracing (true/false, default: false)")
              (set_dest (codes "trace-messages") o))),
    )
    ∷ (
      (codes "--conn-max-frame-size" ∷ []),
      λ o. set_metavar (codes "SIZE") (
          set_type (codes "int") (
            set_help (codes "maximum frame SIZE (512 - 4294967295, default: 4294967295)")
              (set_dest (codes "conn-max-frame-size") o))),
    )
    ∷ []

-- ModernOptionsParser()
abbrev pub modern_parser : Parser
modern_parser = with_options modern_options new_parser
