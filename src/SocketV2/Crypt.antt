-- ===== src/SocketV2/Crypt.antt =====
-- crates/bridge/src/socket_v2.rs: the proof of an attach and the protection of a payload.
use pushcompat.Prelude.{
  ℕ, zero, suc, ◌/◌, ◌%◌, ◌^◌, [], ◌∷◌, ◌++◌, Option, none, some, Bool, false, Text, bytes,
}
use pushcompat.Types.MessageKind.{MessageKind}
use pushcompat.Crypto.{Crypto}
use pushcompat.Db.Outbox.{OutboxMessage}

abbrev pub key_context : Text
key_context = bytes "pushcompat websocket payload v2"

-- The fields that `serde_json` writes; the payload is already in base64.
pub record ProtectedPayload : Type 0 where
  pub kind : MessageKind
  pub app_id : Text
  pub connector_token : Option Text
  pub payload : Text

-- `to_be_bytes`: the lowest `width` bytes of a number, highest first.
unfoldable pub be_bytes : ℕ → ℕ → Text
be_bytes zero n = []
be_bytes (suc width) n = (n / 256 ^ width % 256) ∷ be_bytes width n

-- The installation, a zero byte, and the message's id in eight bytes.
unfoldable pub message_aad : Text → ℕ → Text
unfolding be_bytes
message_aad install_id id = install_id ++ (0 ∷ be_bytes 8 id)

module _ (c : Crypto) where
  unfoldable pub attach_proof : Text → Text → Text → Text
  attach_proof secret nonce install_id = c.hmac_sha256 secret (nonce ++ install_id)

  unfoldable pub verify_attach_proof : Text → Text → Text → Text → Bool
  unfolding attach_proof
  verify_attach_proof secret nonce install_id encoded_proof = elim (c.base64_decode encoded_proof) [
    | none ↦ false
    | some proof ↦ c.ct_eq (attach_proof secret nonce install_id) proof
  ]

  unfoldable pub derive_payload_key : Text → Option Text
  derive_payload_key secret = c.hkdf_expand secret key_context

-- `to_vec` is `serde_json::to_vec`.
module _ (c : Crypto) (to_vec : ProtectedPayload → Option Text) where
  unfoldable pub encrypt_message_with_nonce : Text → OutboxMessage → Text → Text → Option Text
  unfolding message_aad
  encrypt_message_with_nonce install_id message key nonce = elim (to_vec plain) [
    | none ↦ none
    | some plaintext ↦
        elim (c.gcm_encrypt key nonce (message_aad install_id message.id) plaintext) [
          | none ↦ none
          | some encrypted ↦ some (c.base64_encode (nonce ++ encrypted))
        ]
  ]
    where
      plain : ProtectedPayload
      plain = record {
        kind = message.kind;
        app_id = message.app_id;
        connector_token = message.connector_token;
        payload = c.base64_encode message.payload;
      }
