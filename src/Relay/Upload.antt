-- ===== src/Relay/Upload.antt =====
-- upload_to_relay of pytusk/core/relay_upload/upload.py. What the relay answers to each POST is a parameter. Delays
-- are counted in half seconds, and the durations of a result are left out.
pub mod Posted
use pytusk.Prelude.{
  ℕ, zero, suc, ◌+◌, ◌*◌, min, String, Bool, true, false, not, ◌&&◌, ◌||◌, Option, none, some, List,
  [], ◌∷◌, ltb, ◌==◌, if◌then◌else◌,
}
use pytusk.Prelude.Bytes.{Bytes}
use pytusk.Errors.{Result, ok, err, value_error}

pub data RelayUploadOutcome : Type 0 where
  uploaded refused unanswered : RelayUploadOutcome

pub record RelayUploadAck (Cert : Type 0) : Type 0 where
  pub confirmation_certificate : Option Cert
  pub relay_status : Option ℕ
  pub relay_message : Option String

-- WriteRelayBlob
pub record WriteRelayBlob : Type 0 where
  pub blob_id : String
  pub payload : Bytes
  pub register_tip_tx_digest : Option String
  pub nonce : Option String
  pub deletable_blob_object : Option String

-- The result of a POST: is_ok(), with its result_data and result_string.
pub data Reply (Cert : Type 0) : Type 0 where
  accepted : RelayUploadAck Cert → Reply Cert
  failed : Option (RelayUploadAck Cert) → String → Reply Cert

pub record RelayUploadResult (Cert : Type 0) : Type 0 where
  pub outcome : RelayUploadOutcome
  pub certificate : Option Cert
  pub blob_id : String
  pub relay_url : String
  pub register_tip_tx_digest : Option String
  pub nonce : Option String
  pub relay_status : Option ℕ
  pub relay_message : Option String
  pub transport_error : Option String
  pub attempts : ℕ

-- A call: the POSTs that it makes, the delays that it sleeps, and its result.
pub record Posts (Cert : Type 0) : Type 0 where
  pub posted : List WriteRelayBlob
  pub slept : List ℕ
  pub result : RelayUploadResult Cert

abbrev pub retry_base_delay : ℕ
retry_base_delay = 1

abbrev pub retry_max_delay : ℕ
retry_max_delay = 16

-- relay_status in _RETRYABLE_CLIENT_STATUSES
abbrev pub retryable_client_status : ℕ → Bool
retryable_client_status status = status == 408 || status == 425 || status == 429

-- A status that ends the attempts.
pub is_definitive : Option ℕ → Bool
is_definitive none = true
is_definitive (some status) = ltb status 500 && not (retryable_client_status status)

module _ {Cert : Type 0} where
  -- `relay_status`, `relay_message` and `transport_error` after a POST that has failed.
  abbrev pub last_result :
      RelayUploadOutcome
      → String
      → WriteRelayBlob
      → Option (RelayUploadAck Cert)
      → String
      → ℕ
      → RelayUploadResult Cert
  last_result outcome relay_url command none message attempts = record {
    outcome = outcome;
    certificate = none;
    blob_id = command.blob_id;
    relay_url = relay_url;
    register_tip_tx_digest = command.register_tip_tx_digest;
    nonce = command.nonce;
    relay_status = none;
    relay_message = none;
    transport_error = some message;
    attempts = attempts;
  }
  last_result outcome relay_url command (some ack) message attempts = record {
    outcome = outcome;
    certificate = none;
    blob_id = command.blob_id;
    relay_url = relay_url;
    register_tip_tx_digest = command.register_tip_tx_digest;
    nonce = command.nonce;
    relay_status = ack.relay_status;
    relay_message = ack.relay_message;
    transport_error = none;
    attempts = attempts;
  }

  abbrev pub uploaded_result :
      String → WriteRelayBlob → RelayUploadAck Cert → ℕ → RelayUploadResult Cert
  uploaded_result relay_url command ack attempts = record {
    outcome = uploaded;
    certificate = ack.confirmation_certificate;
    blob_id = command.blob_id;
    relay_url = relay_url;
    register_tip_tx_digest = command.register_tip_tx_digest;
    nonce = command.nonce;
    relay_status = ack.relay_status;
    relay_message = none;
    transport_error = none;
    attempts = attempts;
  }

  -- Whether the attempts go on after a failed POST.
  pub gives_up : Option (RelayUploadAck Cert) → Bool
  unfolding is_definitive
  gives_up none = false
  gives_up (some ack) = is_definitive ack.relay_status

  abbrev pub one_post : WriteRelayBlob → RelayUploadResult Cert → Posts Cert
  one_post command result = record { posted = command ∷ []; slept = []; result = result }

  abbrev pub post_then : WriteRelayBlob → ℕ → Posts Cert → Posts Cert
  post_then command delay rest = record {
    posted = command ∷ rest.posted;
    slept = delay ∷ rest.slept;
    result = rest.result;
  }

  module _ (post : WriteRelayBlob → ℕ → Reply Cert) (command : WriteRelayBlob)
      (relay_url : String) where
    -- `for attempt in range(1, max_attempts + 1)`: this attempt, and as many more as are left.
    pub post_attempts : ℕ → ℕ → ℕ → Posts Cert
    unfolding gives_up
    post_attempts zero attempt delay = elim (post command attempt) [
      | accepted ack ↦ one_post command (uploaded_result relay_url command ack attempt)
      | failed ack message ↦
          let outcome : RelayUploadOutcome = if gives_up ack then refused else unanswered in
          one_post command (last_result outcome relay_url command ack message attempt)
    ]
    post_attempts (suc left) attempt delay = elim (post command attempt) [
      | accepted ack ↦ one_post command (uploaded_result relay_url command ack attempt)
      | failed ack message ↦
          let refusal =
            one_post command (last_result refused relay_url command ack message attempt) in
          let rest =
            post_then command delay
              (post_attempts left (attempt + 1) (min (delay * 2) retry_max_delay)) in
          if gives_up ack then refusal else rest
    ]

    unfoldable pub upload_to_relay : ℕ → Result (Posts Cert)
    unfolding post_attempts
    upload_to_relay zero = err value_error
    upload_to_relay (suc left) = ok (post_attempts left 1 retry_base_delay)
