-- ===== src/CryptoManager/Identity.antt =====
-- The identity of the server: it is stored once and then found again by every later start.
use mqtt_tunnel.Base.{
  ◌⊎◌, ℕ, Bool, true, some, ◌≡◌, inl, inr, sym, ap, ◌∙◌, ok, arith, take, length, take-length,
}
use mqtt_tunnel.Base.Text.{Str, codes, str_eq}
use mqtt_tunnel.Base.Dict.{insert, Dict, lookup, lookup-insert}
use mqtt_tunnel.Sodium.{Sodium}
use mqtt_tunnel.CryptoManager.Files.{
  FileSystem, ServerIdentity, load_local_server_identity, store_server_identity,
}
use mqtt_tunnel.CryptoManager.Keys.{fresh, with_identity, CryptoManager, create, role_server}

abbrev key_file : Str
key_file = codes "ServerID.key"

abbrev pub_file : Str
pub_file = codes "ServerID.pub"

stored_content :
    (id : ServerIdentity) (fs gs : FileSystem)
    → store_server_identity id fs ≡ (ok tt, gs)
    → gs.content ≡ insert pub_file id.public_key_id (insert key_file id.secret_key_id fs.content)
unfolding store_server_identity
stored_content id fs gs e = ground arith

lookup_stored :
    (pk sk : Str) (d : Dict Str)
    → (lookup key_file (insert pub_file pk (insert key_file sk d)) ≡ some sk)
      × (lookup pub_file (insert pub_file pk (insert key_file sk d)) ≡ some pk)
unfolding str_eq
lookup_stored pk sk d = ground (
  arith,
  lookup-insert pub_file key_file pk (insert key_file sk d),
  lookup-insert pub_file pub_file pk (insert key_file sk d),
  lookup-insert key_file key_file sk d,
)

load_of_content :
    (fs : FileSystem) (pk sk : Str)
    → length pk ≡ 32
    → length sk ≡ 64
    → lookup key_file fs.content ≡ some sk
    → lookup pub_file fs.content ≡ some pk
    → load_local_server_identity fs ≡ ok (record { public_key_id = pk; secret_key_id = sk })
unfolding load_local_server_identity
load_of_content fs pk sk hp hs lk lp =
    let tp : take 32 pk ≡ pk = rw (← hp) (take-length pk) in
    let ts : take 64 sk ≡ sk = rw (← hs) (take-length sk) in ground (arith, tp, ts)

-- What was stored is loaded, if the keys have the sizes of Ed25519 keys.
pub load-store_server_identity :
    (id : ServerIdentity) (fs gs : FileSystem)
    → length id.public_key_id ≡ 32
    → length id.secret_key_id ≡ 64
    → store_server_identity id fs ≡ (ok tt, gs)
    → load_local_server_identity gs ≡ ok id
load-store_server_identity id fs gs hp hs e =
    let c = stored_content id fs gs e in
    let l = lookup_stored id.public_key_id id.secret_key_id fs.content in
    load_of_content gs id.public_key_id id.secret_key_id hp hs (rw c l.0) (rw c l.1)

-- How a start of the server that succeeds came to its identity.
created_identity :
    (s : Sodium) (entropy : ℕ) (enable skip : Bool) (fs gs : FileSystem) (m : CryptoManager)
    → create s entropy role_server enable skip fs ≡ (ok m, gs)
    → ((load_local_server_identity fs ≡ ok m.server_identity) × (gs ≡ fs))
      ⊎ (store_server_identity m.server_identity fs ≡ (ok tt, gs))
unfolding create
created_identity s entropy enable skip fs gs m e = ground arith

created_manager :
    (s : Sodium) (entropy : ℕ) (enable skip : Bool) (fs gs : FileSystem) (m : CryptoManager)
    → create s entropy role_server enable skip fs ≡ (ok m, gs)
    → (m ≡ with_identity (fresh role_server enable skip) m.server_identity) × (s.sodium_init ≡ true)
unfolding create
created_manager s entropy enable skip fs gs m e = ground arith

create_of_load :
    (s : Sodium) (entropy : ℕ) (enable skip : Bool) (fs : FileSystem) (id : ServerIdentity)
    → s.sodium_init ≡ true
    → load_local_server_identity fs ≡ ok id
    → create s entropy role_server enable skip fs
      ≡ (ok (with_identity (fresh role_server enable skip) id), fs)
unfolding create
create_of_load s entropy enable skip fs id init e = ground arith

-- A server that starts again on the files that an earlier start left has the identity of the
-- earlier start, whatever entropy it draws, and leaves the files alone, if that identity has keys
-- of the sizes of Ed25519 keys.
pub create_again :
    (s : Sodium) (entropy later : ℕ) (enable skip : Bool) (fs gs : FileSystem) (m : CryptoManager)
    → create s entropy role_server enable skip fs ≡ (ok m, gs)
    → length m.server_identity.public_key_id ≡ 32
    → length m.server_identity.secret_key_id ≡ 64
    → create s later role_server enable skip gs ≡ (ok m, gs)
create_again s entropy later enable skip fs gs m e hp hs =
    let (made, init) = created_manager s entropy enable skip fs gs m e in
    create_of_load s later enable skip gs m.server_identity init loads
    ∙ ap (λ (n : CryptoManager). (ok n, gs)) (sym made)
  where
    loads : load_local_server_identity gs ≡ ok m.server_identity
    loads = elim (created_identity s entropy enable skip fs gs m e) [
      | inl (l, same) ↦ rw same l
      | inr store ↦ load-store_server_identity m.server_identity fs gs hp hs store
    ]
