-- ===== src/Cli/Connector.antt =====
-- The options of src/common/options/modern/ConnectorOptionsParser.cpp.
use cli_cpp.Prelude.{List, [], ◌∷◌, Str, codes}
use cli_cpp.Optparse.{Opt, Parser}
use cli_cpp.Cli.{set_dest, set_type, set_help, set_metavar, with_options}
use cli_cpp.Cli.Modern.{modern_parser}

abbrev pub connector_options : List (List Str × (Opt → Opt))
connector_options =
    (
      (codes "-c" ∷ codes "--count" ∷ []),
      λ o. set_metavar (codes "COUNT") (
          set_help (codes "stop after count messages")
            (set_type (codes "int") (set_dest (codes "count") o))),
    )
    ∷ (
      (codes "--obj-ctrl" ∷ []),
      λ o. set_metavar (codes "OBJCTRL") (
          set_help
            (codes
              "optional creation object control based on <object-ids> syntax C/E/S/R stands for Connection, sEssion, Sender, Receiver")
            (set_dest (codes "obj-ctrl") o)),
    )
    ∷ (
      (codes "--timeout" ∷ []),
      λ o.
          set_type (codes "int")
            (set_help (codes "exit after the specified time") (set_dest (codes "timeout") o)),
    )
    ∷ []

-- ConnectorOptionsParser()
abbrev pub connector_parser : Parser
connector_parser = with_options connector_options modern_parser
