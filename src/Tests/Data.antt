-- ===== src/Tests/Data.antt =====
-- Test data: an installation, its app and its messages, and ciphers that show what they are given.
use pushcompat.Prelude.{false, List, [], ◌∷◌, ◌++◌, none, some, Text, bytes, ◌=?◌, refl, =?_iff}
use pushcompat.Crypto.{Crypto, CryptoLaws}
use pushcompat.Types.Transport.{web_socket}
use pushcompat.Socket
use pushcompat.Db.Tables.{empty_tables}
use pushcompat.Bridge.State.{AppState}
use pushcompat.Db.Calls.{Call, claim, register, enqueue_fcm, enqueue_push}

abbrev pub install : Text
install = bytes "0123456789abcdef"

abbrev pub app : Text
app = bytes "org.app"

abbrev pub secret : Text
secret = bytes "secret"

abbrev pub plain : Crypto
plain = record {
  sha256 = λ b. b;
  hex_encode = λ b. b;
  hex_decode = some;
  base64_encode = λ b. b;
  base64_decode = some;
  ct_eq = ◌=?◌;
  hmac_sha256 = λ key message. key ++ message;
  hkdf_expand = λ key context. some key;
  gcm_encrypt = λ key nonce aad message. some message;
}

pub plain-CryptoLaws : CryptoLaws plain
plain-CryptoLaws = record {
  hex_decode-hex_encode = λ b. refl;
  base64_decode-base64_encode = λ b. refl;
  ct_eq_iff = =?_iff;
}

-- An installation with a connector and two messages.
abbrev pub calls : List Call
calls =
    claim install secret secret
    ∷ register install app (bytes "connector") (bytes "endpoint") none
    ∷ enqueue_fcm install app web_socket (some (bytes "one")) (bytes "payload")
    ∷ enqueue_push install app (bytes "connector") (bytes "body")
    ∷ []

-- A bridge that has just started.
abbrev pub state : AppState
state = record {
  tables = empty_tables;
  faults = [];
  hub = Socket.new;
  up_wake = false;
  listeners = [];
  running = [];
  next_task = 0;
  vapid_accepted = 0;
  vapid_rejected = [];
}
