-- ===== src/Cli/Receiver.antt =====
-- The options of src/common/options/modern/ReceiverOptionsParser.cpp.
use cli_cpp.Prelude.{List, [], ◌∷◌, Str, codes}
use cli_cpp.Optparse.{Opt, set_action, Parser}
use cli_cpp.Cli.{set_dest, set_type, set_help, set_metavar, with_options}
use cli_cpp.Cli.Modern.{modern_parser}

abbrev pub receiver_options : List (List Str × (Opt → Opt))
receiver_options =
    (
      (codes "-c" ∷ codes "--count" ∷ []),
      λ o. set_metavar (codes "COUNT") (
          set_help (codes "stop after COUNT messages")
            (set_type (codes "int") (set_dest (codes "count") o))),
    )
    ∷ (
      (codes "--timeout" ∷ []),
      λ o. set_metavar (codes "TIME") (
          set_type (codes "int") (
            set_help (codes "exit after the specified TIME (seconds)")
              (set_dest (codes "timeout") o))),
    )
    ∷ (
      (codes "--log-msgs" ∷ []),
      λ o.
          set_metavar (codes "OPTIONS")
            (set_help (codes "log message OPTIONS") (set_dest (codes "log-msgs") o)),
    )
    ∷ (
      (codes "--action" ∷ []),
      λ o. set_metavar (codes "ACTION") (
          set_help (codes "ACTION on acquired message (default: no-action)")
            (set_dest (codes "msg-action") o)),
    )
    ∷ (
      (codes "--action-size" ∷ []),
      λ o. set_metavar (codes "SIZE") (
          set_type (codes "int") (
            set_help (codes "related action is applied in the batch of given SIZE (default: 1)")
              (set_dest (codes "msg-action-size") o))),
    )
    ∷ (
      (codes "--process-reply-to" ∷ []),
      λ o. set_action (codes "store_true") (
          set_type (codes "bool") (
            set_help
              (codes "send message to reply-to address if enabled and message got reply-to address")
              (set_dest (codes "process-reply-to") o))),
    )
    ∷ (
      (codes "--recv-browse" ∷ []),
      λ o. set_action (codes "store_true") (
          set_type (codes "bool")
            (set_help (codes "browsing receiver if enabled") (set_dest (codes "recv-browse") o))),
    )
    ∷ (
      (codes "--recv-selector" ∷ []),
      λ o.
          set_metavar (codes "SELECTOR")
            (set_help (codes "specify message SELECTOR") (set_dest (codes "recv-selector") o)),
    )
    ∷ (
      (codes "--recv-credit-window" ∷ []),
      λ o. set_metavar (codes "COUNT") (
          set_type (codes "int") (
            set_help (codes "automatically replenish credit for flow control up to COUNT messages")
              (set_dest (codes "recv-credit-window") o))),
    )
    ∷ (
      (codes "--recv-drain-after-credit-window" ∷ []),
      λ o. set_action (codes "store_true") (
          set_type (codes "bool") (
            set_help (codes "execute drain after credit window")
              (set_dest (codes "recv-drain-after-credit-window") o))),
    )
    ∷ (
      (codes "--duration" ∷ []),
      λ o. set_metavar (codes "DURATION") (
          set_help
            (codes
              "message actions total DURATION (defines msg-rate together with count in seconds)")
            (set_dest (codes "duration") o)),
    )
    ∷ (
      (codes "--duration-mode" ∷ []),
      λ o. set_metavar (codes "MODE") (
          set_help
            (codes
              "specifies where to wait to achieve expected duration MODE (after-receive, after-receive-action, after-receive-action-tx-action, default: after-receive)")
            (set_dest (codes "duration-mode") o)),
    )
    ∷ (
      (codes "--recv-listen" ∷ []),
      λ o. set_metavar (codes "LISTEN") (
          set_help (codes "enable receiver listen (P2P) (true/false, default: false)")
            (set_dest (codes "recv-listen") o)),
    )
    ∷ (
      (codes "--recv-listen-port" ∷ []),
      λ o. set_metavar (codes "PORT") (
          set_type (codes "int") (
            set_help (codes "define port for local listening (default: 5672)")
              (set_dest (codes "recv-listen-port") o))),
    )
    ∷ (
      (codes "--durable-subscriber" ∷ []),
      λ o. set_metavar (codes "ENABLED") (
          set_help (codes "create durable subscription to topic (true/false, default: false)")
            (set_dest (codes "durable-subscriber") o)),
    )
    ∷ (
      (codes "--subscriber-unsubscribe" ∷ []),
      λ o. set_metavar (codes "UNSUBSCRIBE") (
          set_help
            (codes
              "unsubscribe durable subscriptor with given name (true/false, default: false, provide --durable-subscriber-name)")
            (set_dest (codes "subscriber-unsubscribe") o)),
    )
    ∷ (
      (codes "--durable-subscriber-prefix" ∷ []),
      λ o. set_metavar (codes "PREFIX") (
          set_help (codes "prefix to use to identify this connection subscriber")
            (set_dest (codes "durable-subscriber-prefix") o)),
    )
    ∷ (
      (codes "--durable-subscriber-name" ∷ []),
      λ o. set_metavar (codes "NAME") (
          set_help (codes "name of the durable subscriber to be unsubscribe")
            (set_dest (codes "durable-subscriber-name") o)),
    )
    ∷ (
      (codes "--shared-subscriber" ∷ []),
      λ o. set_metavar (codes "SHARED") (
          set_help (codes "create shared subscription to topic (true/false, default: false)")
            (set_dest (codes "shared-subscriber") o)),
    )
    ∷ (
      (codes "--conn-clientid" ∷ []),
      λ o. set_metavar (codes "ID") (
          set_help (codes "client ID that is applied to the container")
            (set_dest (codes "conn-clientid") o)),
    )
    ∷ []

-- ReceiverOptionsParser()
abbrev pub receiver_parser : Parser
receiver_parser = with_options receiver_options modern_parser
