-- ===== src/Client/Prepared.antt =====
-- The settings that the clients of src/api/qpid-proton/reactor prepare from validated options.
use cli_cpp.Prelude.{◌≤◌, String, ◌≡◌, refl, inl, inr, false, some, arith, codes, Bool-cases}
use cli_cpp.CppString.{npos, find}
use cli_cpp.Prelude.Int.{ℤ}
use cli_cpp.Uri.{Uri, fresh}
use cli_cpp.Uri.Render.{Parts, IsProper, render}
use cli_cpp.Uri.RoundTrip.{parse-render}
use cli_cpp.Optparse.{Values, value_of, is_set}
use cli_cpp.Optparse.Loop.{done}
use cli_cpp.Handler.{Settings}
use cli_cpp.Cli.Passes.{IsTruth, IsBoolean}
use cli_cpp.Cli.Validate.{validate_modern}
use cli_cpp.Cli.Valid.{IsValid, validate_modern-IsValid}
use cli_cpp.Client.{topic_address, given_or, lower_or_true, uint_or, prepare, settings_of}

-- The settings name the parts of a URL, with the user and the password that the options override, and
-- its switches and its frame size are in range.
pub record IsPrepared (p : Parts) (vs : Values) (s : Settings) : Type 0 where
  pub host : s.broker_url.host ≡ p.host
  pub port : s.broker_url.port ≡ p.port
  pub path : s.broker_url.path ≡ p.path
  pub no_topic : s.is_topic ≡ false
  pub user : s.user ≡ given_or "user" p.user vs
  pub password : s.password ≡ given_or "password" p.password vs
  pub reconnect : IsTruth s.conn_reconnect
  pub sasl : IsTruth s.conn_sasl_enabled
  pub frame_min : 512 ≤ s.max_frame_size
  pub frame_max : s.max_frame_size ≤ 4294967295

lower_or_true-IsTruth : (d : String) (vs : Values) → IsBoolean d vs → IsTruth (lower_or_true d vs)
unfolding lower_or_true
lower_or_true-IsTruth d vs h = elim (Bool-cases (is_set (codes d) vs)) [
  | inl e ↦ rw e (h e)
  | inr e ↦ rw e (inl refl)
]

frame_size-bounds :
    (vs : Values)
    → IsValid vs
    → (512 ≤ uint_or "conn-max-frame-size" 4294967295 vs)
      × (uint_or "conn-max-frame-size" 4294967295 vs ≤ 4294967295)
unfolding uint_or
frame_size-bounds vs v = elim (Bool-cases (is_set (codes "conn-max-frame-size") vs)) [
  | inl e ↦ let b = v.frame_size e in rw e (ground (arith, b.0, b.1), ground (arith, b.0, b.1))
  | inr e ↦ rw e (omega arith, omega arith)
]

parsed : Parts → Uri
parsed p = record {
  uri = render p;
  scheme = p.scheme;
  user = p.user;
  password = p.password;
  host = p.host;
  port = p.port;
  path = p.path;
  query = p.query;
  fragment = p.fragment;
}

settings_of-parsed :
    (forever_ms : ℤ) (p : Parts) (vs : Values)
    → IsProper p
    → find (render p) (codes "topic://") 0 ≡ npos
    → value_of (codes "broker-url") vs ≡ render p
    → settings_of forever_ms vs ≡ some (prepare forever_ms (parsed p) (parsed p) false vs)
unfolding settings_of topic_address parsed
settings_of-parsed forever_ms p vs h t e = rw (e, t, parse-render fresh p h) refl

pub settings_of-IsPrepared :
    (forever_ms : ℤ) (p : Parts) (vs : Values)
    → IsProper p
    → find (render p) (codes "topic://") 0 ≡ npos
    → value_of (codes "broker-url") vs ≡ render p
    → validate_modern vs ≡ done tt
    → (s : Settings) × ((settings_of forever_ms vs ≡ some s) × IsPrepared p vs s)
unfolding prepare parsed
settings_of-IsPrepared forever_ms p vs h t e d =
    let v = (validate_modern-IsValid vs).0 d in
    (
      prepare forever_ms (parsed p) (parsed p) false vs,
      (
        settings_of-parsed forever_ms p vs h t e,
        record {
          host = refl;
          port = refl;
          path = refl;
          no_topic = refl;
          user = refl;
          password = refl;
          reconnect = lower_or_true-IsTruth "conn-reconnect" vs v.reconnect;
          sasl = lower_or_true-IsTruth "conn-sasl-enabled" vs v.sasl;
          frame_min = (frame_size-bounds vs v).0;
          frame_max = (frame_size-bounds vs v).1;
        },
      ),
    )
