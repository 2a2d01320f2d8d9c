-- ===== src/Cli/Sender.antt =====
-- The options of src/common/options/modern/SenderOptionsParser.cpp.
use cli_cpp.Prelude.{List, [], ◌∷◌, Str, codes}
use cli_cpp.Optparse.{Opt, set_action, Parser}
use cli_cpp.Cli.{set_dest, set_type, set_help, set_metavar, set_callback_of, with_options}
use cli_cpp.Cli.Modern.{modern_parser}

abbrev pub sender_options : List (List Str × (Opt → Opt))
sender_options =
    (
      (codes "--msg-content" ∷ []),
      λ o.
          set_metavar (codes "CONTENT")
            (set_help (codes "specify CONTENT of message") (set_dest (codes "msg-content") o)),
    )
    ∷ (
      (codes "-c" ∷ codes "--count" ∷ []),
      λ o. set_metavar (codes "COUNT") (
          set_help (codes "stop after COUNT messages")
            (set_type (codes "int") (set_dest (codes "count") o))),
    )
    ∷ (
      (codes "--msg-correlation-id" ∷ []),
      λ o.
          set_metavar (codes "ID")
            (set_help (codes "message correlation ID") (set_dest (codes "msg-correlation-id") o)),
    )
    ∷ (
      (codes "--msg-reply-to" ∷ []),
      λ o.
          set_metavar (codes "ADDRESS")
            (set_help (codes "specify reply-to ADDRESS") (set_dest (codes "msg-reply-to") o)),
    )
    ∷ (
      (codes "--msg-user-id" ∷ []),
      λ o.
          set_metavar (codes "ID")
            (set_help (codes "message user ID") (set_dest (codes "msg-user-id") o)),
    )
    ∷ (
      (codes "--msg-to" ∷ []),
      λ o.
          set_metavar (codes "ADDRESS")
            (set_help (codes "destination ADDRESS") (set_dest (codes "msg-to") o)),
    )
    ∷ (
      (codes "--msg-ttl" ∷ []),
      λ o.
          set_metavar (codes "TTL")
            (set_help (codes "message Time-To-Live (ms)") (set_dest (codes "msg-ttl") o)),
    )
    ∷ (
      (codes "--msg-id" ∷ []),
      λ o. set_metavar (codes "ID") (
          set_help (codes "use the supplied ID instead of generating one")
            (set_dest (codes "msg-id") o)),
    )
    ∷ (
      (codes "--msg-priority" ∷ []),
      λ o. set_metavar (codes "PRIORITY") (
          set_help (codes "message PRIORITY")
            (set_type (codes "short") (set_dest (codes "msg-priority") o))),
    )
    ∷ (
      (codes "--msg-content-type" ∷ []),
      λ o.
          set_metavar (codes "TYPE")
            (set_help (codes "message content TYPE field") (set_dest (codes "msg-content-type") o)),
    )
    ∷ (
      (codes "--msg-durable" ∷ []),
      λ o. set_metavar (codes "DURABLE") (
          set_help (codes "send durable messages (true/false, default: false)")
            (set_dest (codes "msg-durable") o)),
    )
    ∷ (
      (codes "--msg-subject" ∷ []),
      λ o.
          set_metavar (codes "SUBJECT")
            (set_help (codes "specify message SUBJECT") (set_dest (codes "msg-subject") o)),
    )
    ∷ (
      (codes "--msg-content-from-file" ∷ []),
      λ o. set_metavar (codes "FILENAME") (
          set_help (codes "specify FILENAME to load content from")
            (set_dest (codes "msg-content-from-file") o)),
    )
    ∷ (
      (codes "--msg-property" ∷ []),
      λ o. set_metavar (codes "PROPERTY") (
          set_help
            (codes "specify message PROPERTY (NAME=VALUE|NAME~VALUE, '~' enables type auto-cast)")
            (set_callback_of 0 (set_action (codes "callback") o))),
    )
    ∷ (
      (codes "--msg-content-list-item" ∷ []),
      λ o. set_metavar (codes "ENTRY") (
          set_help
            (codes "specify list ENTRY for message body (VALUE|~VALUE, '~' enables type auto-cast)")
            (set_callback_of 1 (set_action (codes "callback") o))),
    )
    ∷ (
      (codes "--msg-content-map-item" ∷ []),
      λ o. set_metavar (codes "ENTRY") (
          set_help
            (codes
              "specify map ENTRY for message body (NAME=VALUE|NAME~VALUE, '~' enables type auto-cast)")
            (set_callback_of 2 (set_action (codes "callback") o))),
    )
    ∷ (
      (codes "--timeout" ∷ []),
      λ o. set_metavar (codes "TIME") (
          set_type (codes "int") (
            set_help (codes "exit after the specified TIME (seconds)")
              (set_dest (codes "timeout") o))),
    )
    ∷ (
      (codes "--log-msgs" ∷ []),
      λ o.
          set_metavar (codes "OPTIONS")
            (set_help (codes "log message OPTIONS") (set_dest (codes "log-msgs") o)),
    )
    ∷ (
      (codes "--duration" ∷ []),
      λ o. set_metavar (codes "DURATION") (
          set_help
            (codes
              "message actions total DURATION (defines msg-rate together with count in seconds)")
            (set_dest (codes "duration") o)),
    )
    ∷ (
      (codes "--duration-mode" ∷ []),
      λ o. set_metavar (codes "MODE") (
          set_help
            (codes
              "specifies where to wait to achieve expected duration MODE (before-send, after-send, after-send-tx-action, default: after-send)")
            (set_dest (codes "duration-mode") o)),
    )
    ∷ (
      (codes "--msg-group-id" ∷ []),
      λ o.
          set_metavar (codes "ID")
            (set_help (codes "message group ID") (set_dest (codes "msg-group-id") o)),
    )
    ∷ (
      (codes "--msg-group-seq" ∷ []),
      λ o.
          set_metavar (codes "SEQUENCE")
            (set_help (codes "message group sequence") (set_dest (codes "msg-group-seq") o)),
    )
    ∷ []

-- SenderOptionsParser()
abbrev pub sender_parser : Parser
sender_parser = with_options sender_options modern_parser
