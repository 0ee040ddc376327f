-- ===== src/CryptoManager/Files.antt =====
-- src/CryptoManager.cpp: the files that hold the identity of the server. The file system is a
-- dictionary; `can_open` and `can_write` say which files can be opened for writing and written.
use mqtt_tunnel.Base.{
  ℕ, Bool, not, none, some, [], ◌++◌, take, length, ◌==◌, if◌then◌else◌, Result, ok, throw, ◌>>=◌,
  runtime_error,
}
use mqtt_tunnel.Base.Text.{Str, codes}
use mqtt_tunnel.Base.Dict.{Dict, lookup, insert}
use mqtt_tunnel.Sodium.{crypto_sign_publickeybytes, crypto_sign_secretkeybytes}

pub record ServerIdentity : Type 0 where
  pub public_key_id : Str
  pub secret_key_id : Str

pub record FileSystem : Type 0 where
  pub content : Dict Str
  pub can_open : Str → Bool
  pub can_write : Str → Bool

-- `ifstream::read` of `n` bytes, where the file must hold as many.
read_file : FileSystem → Str → ℕ → Str → Str → Result Str
read_file fs name n missing wrong_size = elim (lookup name fs.content) [
  | none ↦ throw (runtime_error missing)
  | some c ↦ if length (take n c) == n then ok (take n c) else throw (runtime_error wrong_size)
]

-- `load_local_server_identity`
unfoldable pub load_local_server_identity : FileSystem → Result ServerIdentity
unfolding read_file
load_local_server_identity fs = do
  sk ←
      read_file fs (codes "ServerID.key") crypto_sign_secretkeybytes (codes "ServerID.key missing")
        (codes "ServerID.key has wrong size")
  pk ←
      read_file fs (codes "ServerID.pub") crypto_sign_publickeybytes (codes "ServerID.pub missing")
        (codes "ServerID.pub has wrong size")
  ok (record { public_key_id = pk; secret_key_id = sk })

-- Opening with `trunc` empties the file, before the write that may fail.
write_file : Str → Str → FileSystem → Result (Unit {0}) × FileSystem
write_file name c fs =
    let emptied = record fs { content = insert name [] fs.content } in
    if not (fs.can_open name)
    then (throw (runtime_error (codes "Failed to open " ++ name ++ codes " for writing")), fs)
    else if not (fs.can_write name)
    then (throw (runtime_error (codes "Failed to write " ++ name)), emptied)
    else (ok tt, record fs { content = insert name c fs.content })

-- The rest of `store_server_identity`, after the secret key.
store_public_key : ServerIdentity → Result (Unit {0}) × FileSystem → Result (Unit {0}) × FileSystem
unfolding write_file
store_public_key id (ok _, fs) = write_file (codes "ServerID.pub") id.public_key_id fs
store_public_key id (failed, fs) = (failed, fs)

-- `store_server_identity`
unfoldable pub store_server_identity : ServerIdentity → FileSystem → Result (Unit {0}) × FileSystem
unfolding write_file store_public_key
store_server_identity id fs =
    store_public_key id (write_file (codes "ServerID.key") id.secret_key_id fs)
