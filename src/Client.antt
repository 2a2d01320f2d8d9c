-- ===== src/Client.antt =====
-- What the three clients make of the validated options before they create their handler: `run` of
-- src/api/qpid-proton/reactor/ConnectingClient.cpp, whose code SendingClient.cpp and ReceivingClient.cpp
-- repeat. The value of proton's duration::FOREVER in milliseconds, cut to 32 bits, is a parameter.
pub mod Segments
pub mod Prepared
pub mod Sending
pub mod Receiving
pub mod Started
pub mod Texts
pub mod Filled
pub mod Composed
pub mod Ranges
mod Tests
use cli_cpp.Prelude.{
  ℕ, zero, suc, ◌+◌, ◌-◌, ◌*◌, ◌/◌, ◌%◌, ◌≤◌, ◌<◌, String, ◌≡◌, refl, sym, ap, ◌∙◌, subst, ◌≢◌, ◌↔◌,
  ◌⊎◌, inl, inr, Bool, true, false, not, ◌&&◌, ◌||◌, Option, none, some, List, [], ◌∷◌, ◌++◌, map,
  foldl, append-nil, append_assoc, arith, Str, codes, str_eq, str_lt, str_eq→eq, str_eq_refl,
  ne→str_eq, str_eq-false_sym, ltb, leb, ◌==◌, if◌then◌else◌, ltb→lt, lt→ltb, leb→le, le→leb,
  lt→leb_false, eq→==, ne→==, ==→eq, Bool-cases, Option-cases, ◌^◌, length, take, drop,
  length-append, take-length_append, drop-length_append, take-all, length-drop-le, select,
  select-append, cons?,
}
use cli_cpp.CppString.{npos, find, to_lower}
use cli_cpp.Prelude.Int.{ℤ, pos, negsuc}
use cli_cpp.Uri.{Uri, fresh, parse}
use cli_cpp.Optparse.{Values, value_of, is_set}
use cli_cpp.Optparse.Numbers.{read_long, strtol_32, strtoul}
use cli_cpp.Handler.{Settings}

-- std::getline(stream, segment, c): the segment, and what is left behind the delimiter, if there is one.
unfoldable pub get_line : ℕ → Str → Str × Option Str
get_line c [] = ([], none)
get_line c (x ∷ s) = let r = get_line c s in if x == c then ([], some s) else (x ∷ r.0, r.1)

-- while (std::getline(...)) l.push_back(segment); on fuel
unfoldable pub get_lines : ℕ → ℕ → Str → List Str
get_lines zero c s = []
get_lines (suc fuel) c [] = []
get_lines (suc fuel) c (x ∷ s) =
    let r = get_line c (x ∷ s) in r.0 ∷ (elim r.1 [ none ↦ [] | some rest ↦ get_lines fuel c rest ])

-- The address without its first topic://, and whether it has one.
unfoldable pub topic_address : Str → Str × Bool
topic_address url =
    let i = find url (codes "topic://") 0 in
    if i == npos then (url, false) else (take i url ++ drop (i + 8) url, true)

-- The option if it is given, else the other value.
unfoldable pub given_or : String → Str → Values → Str
given_or d other vs = if is_set (codes d) vs then value_of (codes d) vs else other

-- The option in lower case if it is given, else true.
unfoldable pub lower_or_true : String → Values → Str
lower_or_true d vs = if is_set (codes d) vs then to_lower (value_of (codes d) vs) else codes "true"

unfoldable pub sasl_mechanisms_of : Str → Str → Values → Str
sasl_mechanisms_of user password vs =
    if is_set (codes "sasl-mechanisms") vs
    then value_of (codes "sasl-mechanisms") vs
    else if not (str_eq user []) && not (str_eq password [])
    then codes "PLAIN"
    else codes "ANONYMOUS"

-- conn_reconnect_custom
unfoldable pub is_custom : Values → Bool
is_custom vs =
    is_set (codes "conn-reconnect-interval") vs
    || (is_set (codes "conn-reconnect-limit") vs
        || (is_set (codes "conn-reconnect-timeout") vs
            || (is_set (codes "conn-reconnect-first") vs
                || (is_set (codes "conn-reconnect-increment") vs
                    || is_set (codes "conn-reconnect-doubling") vs))))

infixl 5 ◌>>=◌
abbrev ◌>>=◌ {ℓ κ} : {A : Type ℓ} {B : Type κ} → Option A → (A → Option B) → Option B
none >>= f = none
some a >>= f = f a

-- The numbers: cut to 32 bits, signed or not.
unfoldable pub int_or : String → ℤ → Values → ℤ
int_or d other vs = if is_set (codes d) vs then strtol_32 (value_of (codes d) vs) else other

unfoldable pub uint_or : String → ℕ → Values → ℕ
uint_or d other vs = if is_set (codes d) vs then strtoul (value_of (codes d) vs) % 2 ^ 32 else other

module _ (forever_ms : ℤ) where
  -- The arguments of the handler's constructor: from the parsed option, the parsed address and
  -- whether it is a topic.
  unfoldable pub prepare : Uri → Uri → Bool → Values → Settings
  unfolding get_lines topic_address given_or lower_or_true sasl_mechanisms_of is_custom int_or
      uint_or
  prepare whole url topic vs =
      let user = given_or "user" whole.user vs in
      let password = given_or "password" whole.password vs in
      record {
        broker_url = url;
        conn_urls =
            if is_set (codes "conn-urls") vs
            then get_lines (suc (length (value_of (codes "conn-urls") vs))) b','
                (value_of (codes "conn-urls") vs)
            else [];
        is_topic = topic;
        user = user;
        password = password;
        sasl_mechanisms = sasl_mechanisms_of user password vs;
        conn_sasl_enabled = lower_or_true "conn-sasl-enabled" vs;
        conn_ssl_certificate = given_or "conn-ssl-certificate" [] vs;
        conn_ssl_private_key = given_or "conn-ssl-private-key" [] vs;
        conn_ssl_password = given_or "conn-ssl-password" [] vs;
        conn_ssl_trust_store = given_or "conn-ssl-trust-store" [] vs;
        conn_ssl_verify_peer = is_set (codes "conn-ssl-verify-peer") vs;
        conn_ssl_verify_peer_name = is_set (codes "conn-ssl-verify-peer-name") vs;
        conn_reconnect = lower_or_true "conn-reconnect" vs;
        conn_reconnect_interval = int_or "conn-reconnect-interval" (pos 10) vs;
        conn_reconnect_limit = int_or "conn-reconnect-limit" (pos 0) vs;
        conn_reconnect_timeout = int_or "conn-reconnect-timeout" forever_ms vs;
        conn_reconnect_first = uint_or "conn-reconnect-first" 0 vs;
        conn_reconnect_increment = uint_or "conn-reconnect-increment" 100 vs;
        conn_reconnect_doubling = not (
            is_set (codes "conn-reconnect-doubling") vs
            && str_eq (value_of (codes "conn-reconnect-doubling") vs) (codes "false"));
        conn_reconnect_custom = is_custom vs;
        conn_heartbeat = uint_or "conn-heartbeat" 0 vs;
        max_frame_size = uint_or "conn-max-frame-size" 4294967295 vs;
        conn_use_config_file = is_set (codes "conn-use-config-file") vs;
        log_msgs = given_or "log-msgs" [] vs;
      }

  -- The handler's constructor parses the address; `none` is an exception of a parser of URLs. The
  -- user and the password are those of the whole option.
  unfoldable pub settings_of : Values → Option Settings
  settings_of vs = do
    whole ← parse fresh (value_of (codes "broker-url") vs)
    let address = topic_address (value_of (codes "broker-url") vs)
    url ← parse fresh address.0
    some (prepare whole url address.1 vs)
