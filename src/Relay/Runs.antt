-- ===== src/Relay/Runs.antt =====
-- Runs of the uploads through a relay and of its tips (pytusk/core/relay_upload).
use pytusk.Prelude.{
  ℕ, zero, suc, ◌≡◌, ◌⊎◌, refl, arith, Option, none, some, [], ◌∷◌, replicate, length,
}
use pytusk.Prelude.Bytes.{Bytes}
use pytusk.Errors.{ok, err, value_error}
use pytusk.Redstuff.Sizes.{encoded_blob_length, source_symbol_counts, symbol_size, metadata_length}
use pytusk.Relay.Upload.{
  RelayUploadAck, WriteRelayBlob, Reply, accepted, failed, Posts, upload_to_relay,
}
use pytusk.Relay.Upload.Posted.{IsPosted, upload_to_relay-IsPosted}
use pytusk.Relay.Tip.{
  linear_tip, TipConfig, TipQuote, build_auth_package, bcs_of, quote_tip, assert_tip_within_ceiling,
}
use pytusk.Relay.Tip.Charged.{Charged, quote_tip-Charged}
use pytusk.Relay.Tip.Package.{IsPackage, bcs-IsPackage}

abbrev ack : Option ℕ → RelayUploadAck ℕ
ack status = record {
  confirmation_certificate = some 7;
  relay_status = status;
  relay_message = none;
}

-- A relay that is unavailable twice, and accepts the third POST.
abbrev busy_relay : WriteRelayBlob → ℕ → Reply ℕ
busy_relay command zero = failed none "no route"
busy_relay command (suc zero) = failed none "connection reset"
busy_relay command (suc (suc zero)) = failed (some (ack (some 503))) "unavailable"
busy_relay command attempt = accepted (ack (some 200))

abbrev post_command : WriteRelayBlob
post_command = record {
  blob_id = "b";
  payload = 1 ∷ 2 ∷ 3 ∷ [];
  register_tip_tx_digest = some "d";
  nonce = some "n";
  deletable_blob_object = none;
}

upload_to_relay-IsPosted_example :
    ((◌≡◌ {A = ℕ} 3 0) × (upload_to_relay busy_relay post_command "relay" 3 ≡ err value_error))
    ⊎ ((left : ℕ) × (out : Posts ℕ) × (◌≡◌ {A = ℕ} 3 (suc left))
        × (upload_to_relay busy_relay post_command "relay" 3 ≡ ok out)
        × IsPosted busy_relay post_command "relay" 1 left 0 out)
upload_to_relay-IsPosted_example = upload_to_relay-IsPosted busy_relay post_command "relay" 3

abbrev linear_config : TipConfig
linear_config = record { address = some "0xa"; kind = some (linear_tip 100 3) }

abbrev linear_quote : TipQuote
linear_quote = record { address = some "0xa"; amount = some 121; kind = some (linear_tip 100 3) }

linear_run : quote_tip (some linear_config) 100 10 ≡ ok linear_quote
unfolding quote_tip encoded_blob_length source_symbol_counts symbol_size metadata_length
linear_run = refl

below_ceiling : assert_tip_within_ceiling linear_quote (some 200) ≡ ok tt
unfolding assert_tip_within_ceiling
below_ceiling = refl

quote_tip-Charged_example : Charged linear_config 100 10 (some 200) linear_quote
quote_tip-Charged_example =
    quote_tip-Charged linear_config 100 10 (some 200) linear_run below_ceiling

abbrev constant_digest : Bytes → Bytes
constant_digest bytes = replicate 32 7

constant_digests : (bytes : Bytes) → length (constant_digest bytes) ≡ 32
constant_digests bytes = refl

bcs-IsPackage_example :
    (bytes : Bytes) × (bcs_of (build_auth_package constant_digest (9 ∷ []) (1 ∷ 2 ∷ 3 ∷ []))
      ≡ ok bytes)
    × IsPackage bytes (1 ∷ 2 ∷ 3 ∷ []) (9 ∷ []) constant_digest
bcs-IsPackage_example =
    bcs-IsPackage constant_digest constant_digests (9 ∷ []) (1 ∷ 2 ∷ 3 ∷ []) (omega arith)
