-- ===== src/Cli/Validate.antt =====
-- validate of ModernOptionsParser.cpp, SenderOptionsParser.cpp, ReceiverOptionsParser.cpp and
-- ConnectorOptionsParser.cpp in src/common/options/modern. `error` ends the program with 2; the help
-- that is printed before it is left out.
use cli_cpp.Prelude.{
  Bool, true, false, not, ◌&&◌, ◌||◌, none, some, ◌++◌, Str, codes, str_eq, ltb, ◌==◌,
  if◌then◌else◌,
}
use cli_cpp.CppString.{to_lower}
use cli_cpp.Prelude.Int.{ℤ, pos, negsuc}
use cli_cpp.Optparse.{Values, value_of, is_set}
use cli_cpp.Optparse.Numbers.{read_long, strtoul, atoi}
use cli_cpp.Optparse.Loop.{Result, done, failed, exited, out_of_fuel}

infixl 5 ◌>>◌
abbrev pub ◌>>◌ {ℓ} : {A : Type ℓ} → Result {0} Unit → Result A → Result A
done u >> r = r
failed e >> r = failed e
exited >> r = exited
out_of_fuel >> r = out_of_fuel

-- options.get(d) as a bool
unfoldable pub get_bool : Str → Values → Bool
get_bool d vs = is_set d vs && elim (read_long (value_of d vs)) [
  | none ↦ false
  | some (pos n) ↦ n == 1
  | some (negsuc n) ↦ false
]

unfoldable pub less_than_1 : ℤ → Bool
less_than_1 (pos n) = n == 0
less_than_1 (negsuc n) = true

-- if (bad) error(msg);
unfoldable pub reject : Bool → Str → Result {0} Unit
reject bad msg = if bad then failed msg else done tt

not_boolean : Str → Str → Str
not_boolean d v =
    codes "Value \""
    ++ (v ++ (codes "\" is not valid for --" ++ (d ++ codes " option, must be one of true/false")))

-- The test of an option that must be true or false in any case.
unfoldable pub validate_boolean : Str → Values → Result {0} Unit
unfolding not_boolean
validate_boolean d vs =
    let v = to_lower (value_of d vs) in
    reject (is_set d vs && (not (str_eq v (codes "true")) && not (str_eq v (codes "false"))))
      (not_boolean d (value_of d vs))

unfoldable pub is_listener : Values → Bool
is_listener vs =
    is_set (codes "recv-listen") vs
    && str_eq (to_lower (value_of (codes "recv-listen") vs)) (codes "true")

-- ModernOptionsParser::validate
unfoldable pub validate_modern : Values → Result {0} Unit
unfolding not_boolean
validate_modern vs = do
  reject
      (not (is_set (codes "broker-url") vs)
        && (not (is_listener vs) && not (get_bool (codes "conn-use-config-file") vs)))
      (codes "Broker URL is not set")
  let size = strtoul (value_of (codes "conn-max-frame-size") vs)
  reject (is_set (codes "conn-max-frame-size") vs && (ltb 4294967295 size || ltb size 512)) (
      codes "Maximum frame size "
      ++ (value_of (codes "conn-max-frame-size") vs ++ codes " is out of range (512 - 4294967295)"))
  validate_boolean (codes "conn-reconnect") vs
  reject
      (is_set (codes "conn-reconnect-doubling") vs
        && (not (str_eq (value_of (codes "conn-reconnect-doubling") vs) (codes "true"))
            && not (str_eq (value_of (codes "conn-reconnect-doubling") vs) (codes "false"))))
      (not_boolean (codes "conn-reconnect-doubling")
        (value_of (codes "conn-reconnect-doubling") vs))
  validate_boolean (codes "conn-sasl-enabled") vs
  reject
      (is_set (codes "conn-ssl-certificate") vs && not (is_set (codes "conn-ssl-private-key") vs))
      (codes "SSL private key (--conn-ssl-private-key) must be given")

-- SenderOptionsParser::validate
unfoldable pub validate_sender : Values → Result {0} Unit
validate_sender vs = do
  validate_modern vs
  reject
      (is_set (codes "duration-mode") vs
        && str_eq (value_of (codes "duration-mode") vs) (codes "after-send-tx-action"))
      (codes "transactions are not supported yet")

-- ReceiverOptionsParser::validate
unfoldable pub validate_receiver : Values → Result {0} Unit
validate_receiver vs = do
  validate_modern vs
  reject
      (is_set (codes "msg-action-size") vs
        && less_than_1 (atoi (value_of (codes "msg-action-size") vs)))
      (codes "action-size must not be less than 1")
  reject
      (is_set (codes "duration-mode") vs
        && str_eq (value_of (codes "duration-mode") vs) (codes "after-receive-action-tx-action"))
      (codes "transactions are not supported yet")
  validate_boolean (codes "durable-subscriber") vs
  validate_boolean (codes "subscriber-unsubscribe") vs
  validate_boolean (codes "shared-subscriber") vs
