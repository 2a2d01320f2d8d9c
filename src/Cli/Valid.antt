-- ===== src/Cli/Valid.antt =====
-- What the validation of the options lets through: src/common/options/modern.
use cli_cpp.Prelude.{◌≤◌, ◌≡◌, ◌≢◌, ◌↔◌, ◌⊎◌, inl, inr, true, codes, ne→str_eq}
use cli_cpp.Cli.Passes.{
  IsGiven, IsTruth, IsBoolean, IsPositive, reject-done, done-reject, seq-done, done-seq, given,
  withheld, truth, of_truth, boolean, of_boolean, listener, of_listener, connected, of_connected,
  in_range, of_in_range, holds, of_holds, positive, of_positive, str_ne,
}
use cli_cpp.CppString.{to_lower}
use cli_cpp.Optparse.{Values, value_of}
use cli_cpp.Optparse.Numbers.{strtoul, atoi}
use cli_cpp.Optparse.Loop.{done}
use cli_cpp.Cli.Validate.{get_bool, validate_modern, validate_sender, validate_receiver}

-- What all clients ask of the options.
pub record IsValid (vs : Values) : Type 0 where
  pub broker :
      IsGiven "broker-url" vs
      ⊎ ((IsGiven "recv-listen" vs × (to_lower (value_of (codes "recv-listen") vs) ≡ codes "true"))
          ⊎ (get_bool (codes "conn-use-config-file") vs ≡ true))
  pub frame_size :
      IsGiven "conn-max-frame-size" vs
      → (512 ≤ strtoul (value_of (codes "conn-max-frame-size") vs))
        × (strtoul (value_of (codes "conn-max-frame-size") vs) ≤ 4294967295)
  pub reconnect : IsBoolean "conn-reconnect" vs
  pub doubling :
      IsGiven "conn-reconnect-doubling" vs → IsTruth (value_of (codes "conn-reconnect-doubling") vs)
  pub sasl : IsBoolean "conn-sasl-enabled" vs
  pub key : IsGiven "conn-ssl-certificate" vs → IsGiven "conn-ssl-private-key" vs

validate_modern_sound : (vs : Values) → validate_modern vs ≡ done tt → IsValid vs
unfolding validate_modern
validate_modern_sound vs h0 =
    let h1 = seq-done _ _ h0 in
    let h2 = seq-done _ _ h1.1 in
    let h3 = seq-done _ _ h2.1 in
    let h4 = seq-done _ _ h3.1 in
    let h5 = seq-done _ _ h4.1 in
    record {
      broker = elim (connected _ _ _ (reject-done _ _ h1.0)) [
        | inl e ↦ inl e
        | inr (inl e) ↦ inr (inl (listener vs e))
        | inr (inr e) ↦ inr (inr e)
      ];
      frame_size = λ g. in_range _ (given _ _ (reject-done _ _ h2.0) g);
      reconnect = boolean "conn-reconnect" vs h3.0;
      doubling = λ g. truth _ (given _ _ (reject-done _ _ h4.0) g);
      sasl = boolean "conn-sasl-enabled" vs h5.0;
      key = λ g. holds _ (given _ _ (reject-done _ _ h5.1) g);
    }

validate_modern_complete : (vs : Values) → IsValid vs → validate_modern vs ≡ done tt
unfolding validate_modern
validate_modern_complete vs v =
    done-seq _ _
      (done-reject _ _ (
        of_connected _ _ _ (elim v.broker [
          | inl e ↦ inl e
          | inr (inl (g, e)) ↦ inr (inl (of_listener vs g e))
          | inr (inr e) ↦ inr (inr e)
        ])))
      (done-seq _ _ (done-reject _ _ (withheld _ _ (λ g. of_in_range _ (v.frame_size g)))) (
        done-seq _ _ (of_boolean "conn-reconnect" vs v.reconnect) (
          done-seq _ _ (done-reject _ _ (withheld _ _ (λ g. of_truth _ (v.doubling g)))) (
            done-seq _ _ (of_boolean "conn-sasl-enabled" vs v.sasl)
              (done-reject _ _ (withheld _ _ (λ g. of_holds _ (v.key g))))))))

-- validate of the options that all clients share passes exactly the valid ones: a broker URL, a
-- listener or the configuration file says where to connect; a given frame size is from 512 to 2^32 - 1;
-- the Boolean options are true or false, --conn-reconnect-doubling in lower case and the others in any case;
-- and a certificate comes with a private key.
pub validate_modern-IsValid : (vs : Values) → (validate_modern vs ≡ done tt) ↔ IsValid vs
validate_modern-IsValid vs = (validate_modern_sound vs, validate_modern_complete vs)

-- What the receiver asks of the options besides.
pub record IsValidReceiver (vs : Values) : Type 0 where
  pub shared_part : IsValid vs
  pub action_size :
      IsGiven "msg-action-size" vs → IsPositive (atoi (value_of (codes "msg-action-size") vs))
  pub no_transaction :
      IsGiven "duration-mode" vs
      → value_of (codes "duration-mode") vs ≢ codes "after-receive-action-tx-action"
  pub durable : IsBoolean "durable-subscriber" vs
  pub unsubscribe : IsBoolean "subscriber-unsubscribe" vs
  pub shared : IsBoolean "shared-subscriber" vs

validate_receiver_sound : (vs : Values) → validate_receiver vs ≡ done tt → IsValidReceiver vs
unfolding validate_receiver
validate_receiver_sound vs h0 =
    let h1 = seq-done _ _ h0 in
    let h2 = seq-done _ _ h1.1 in
    let h3 = seq-done _ _ h2.1 in
    let h4 = seq-done _ _ h3.1 in
    let h5 = seq-done _ _ h4.1 in
    record {
      shared_part = validate_modern_sound vs h1.0;
      action_size = λ g. positive _ (given _ _ (reject-done _ _ h2.0) g);
      no_transaction = λ g. str_ne _ _ (given _ _ (reject-done _ _ h3.0) g);
      durable = boolean "durable-subscriber" vs h4.0;
      unsubscribe = boolean "subscriber-unsubscribe" vs h5.0;
      shared = boolean "shared-subscriber" vs h5.1;
    }

validate_receiver_complete : (vs : Values) → IsValidReceiver vs → validate_receiver vs ≡ done tt
unfolding validate_receiver
validate_receiver_complete vs v = done-seq _ _ (validate_modern_complete vs v.shared_part) (
    done-seq _ _ (done-reject _ _ (withheld _ _ (λ g. of_positive _ (v.action_size g)))) (
      done-seq _ _ (done-reject _ _ (withheld _ _ (λ g. ne→str_eq _ _ (v.no_transaction g)))) (
        done-seq _ _ (of_boolean "durable-subscriber" vs v.durable) (
          done-seq _ _ (of_boolean "subscriber-unsubscribe" vs v.unsubscribe)
            (of_boolean "shared-subscriber" vs v.shared)))))

-- validate of the receiver's options passes exactly the options that are valid for all clients, have
-- an action size of at least 1 if any, no transaction mode, and true or false in any case for the three options of the
-- subscriber.
pub validate_receiver-IsValidReceiver :
    (vs : Values) → (validate_receiver vs ≡ done tt) ↔ IsValidReceiver vs
validate_receiver-IsValidReceiver vs = (validate_receiver_sound vs, validate_receiver_complete vs)

-- validate of the sender's options passes exactly the options that are valid for all clients and do not
-- ask for the duration mode of transactions.
pub validate_sender-IsValid :
    (vs : Values)
    → (validate_sender vs ≡ done tt) ↔ (
        IsValid vs
        × (IsGiven "duration-mode" vs
            → value_of (codes "duration-mode") vs ≢ codes "after-send-tx-action"))
unfolding validate_sender
validate_sender-IsValid vs = (
  (λ h.
      let h1 = seq-done _ _ h in
      (validate_modern_sound vs h1.0, λ g. str_ne _ _ (given _ _ (reject-done _ _ h1.1) g))),
  (λ v.
      done-seq _ _ (validate_modern_complete vs v.0)
        (done-reject _ _ (withheld _ _ (λ g. ne→str_eq _ _ (v.1 g))))),
)
