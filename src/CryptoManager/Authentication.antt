-- ===== src/CryptoManager/Authentication.antt =====
-- `establish_client_session`: the pinned key of the server is checked before a session is accepted.
use mqtt_tunnel.Base.{Exception, true, some, ◌≡◌, throw, arith, take, length}
use mqtt_tunnel.Base.Text.{Str, codes}
use mqtt_tunnel.Base.Dict.{lookup}
use mqtt_tunnel.Sodium.{Sodium}
use mqtt_tunnel.Messages.{ServerHelloCrypto}
use mqtt_tunnel.CryptoManager.Files.{FileSystem}
use mqtt_tunnel.CryptoManager.Keys.{CryptoManager}
use mqtt_tunnel.CryptoManager.Exchange.{establish_client_session}

-- The pinned key is the first 32 bytes of the file.
pub record Pinned (s : Sodium) (fs : FileSystem) (reply : ServerHelloCrypto) (n : CryptoManager)
    : Type 0 where
  pub file : Str
  pub pinned : lookup (codes "identity.pub") fs.content ≡ some file
  pub whole : length (take 32 file) ≡ 32
  pub verified :
      s.crypto_sign_verify_detached reply.signature_message reply.server_ephemeral_public_key
        n.server_identity.public_key_id
      ≡ true

-- A client that fails to establish a session has no more sessions than before.
pub establish_client_session_failed :
    (s : Sodium) (fs : FileSystem) (reply : ServerHelloCrypto) (m n : CryptoManager) (e : Exception)
    → establish_client_session s fs reply m ≡ (throw e, n)
    → n.session_map ≡ m.session_map
unfolding establish_client_session
establish_client_session_failed s fs reply m n e h = ground arith
