-- ===== src/Cli/Tests.antt =====
-- The options of the clients in src/common/options/modern, and their validation.
use cli_cpp.Prelude.{◌≡◌, ◌↔◌, [], ◌∷◌, codes}
use cli_cpp.Optparse.{Values}
use cli_cpp.Optparse.Loop.{done}
use cli_cpp.Cli.Validate.{validate_modern, validate_receiver}
use cli_cpp.Cli.Valid.{
  IsValid, IsValidReceiver, validate_modern-IsValid, validate_receiver-IsValidReceiver,
}

abbrev broker_only : Values
broker_only = record {
  values = (codes "broker-url", codes "amqp://h:5672/q") ∷ [];
  append_map = [];
  user_set = [];
}

validate_modern-IsValid_example : (validate_modern broker_only ≡ done tt) ↔ IsValid broker_only
validate_modern-IsValid_example = validate_modern-IsValid broker_only

validate_receiver-IsValidReceiver_example :
    (validate_receiver broker_only ≡ done tt) ↔ IsValidReceiver broker_only
validate_receiver-IsValidReceiver_example = validate_receiver-IsValidReceiver broker_only
