-- ===== src/Connector/Tests.antt =====
-- The connector of src/api/qpid-proton/reactor/handler/ConnectorHandler.cpp with all objects.
use cli_cpp.Prelude.{◌≡◌, [], ◌∷◌, ◌++◌, arith, codes, select}
use cli_cpp.Prelude.Int.{pos}
use cli_cpp.Samples.{sample_settings}
use cli_cpp.Optparse.{Values}
use cli_cpp.Connector.{
  connection_handle, Connector, create, set_object_control, on_connection_open, close_objects,
}
use cli_cpp.Connector.Objects.{opens, closes, reverse, close_objects-on_connection_open}
use cli_cpp.Connector.Timeout.{run_timers, seconds, run_timers-close_objects}

abbrev sample_connector : Connector
sample_connector =
    set_object_control 15 (
      create sample_settings
        (record { timeout = pos 3; remaining = pos 3; name = codes "timeout" }))

close_objects-on_connection_open_example :
    select closes (close_objects (on_connection_open sample_connector).0)
    ≡ reverse (select opens (on_connection_open sample_connector).1) ++ connection_handle ∷ []
close_objects-on_connection_open_example = close_objects-on_connection_open sample_connector

abbrev letters_given : Values
letters_given = record {
  values = (codes "obj-ctrl", codes "RCE") ∷ [];
  append_map = [];
  user_set = [];
}

run_timers-close_objects_example :
    run_timers 5 (record sample_connector {
      timer = record { timeout = pos 3; remaining = pos 2; name = codes "timeout" };
    })
    ≡ seconds 2 ++ close_objects sample_connector
run_timers-close_objects_example =
    run_timers-close_objects 5 2 3 (codes "timeout") sample_connector (omega arith)
