-- ===== src/TunnelServer/TunRead.antt =====
-- src/TunnelServer.cpp: the body of the loop of `async_tun_read`. The buffer lives across rounds: a
-- short packet leaves the bytes of an earlier one behind it.
use mqtt_tunnel.Base.{
  ℕ, ◌+◌, ◌*◌, Bool, true, false, Option, none, some, ◌++◌, if◌then◌else◌, Result, ok, throw, fault,
  drop, length, get_elem?,
}
use mqtt_tunnel.Base.Text.{Str}
use mqtt_tunnel.Base.State.{◌>>=◌, ◌>>◌, return, call, get}
use mqtt_tunnel.Types.{SessionConfig, empty_config}
use mqtt_tunnel.SessionMap.{get_session_by_ip}
use mqtt_tunnel.Helpers.{ip_to_string}
use mqtt_tunnel.CryptoManager.{encrypt_data}
use mqtt_tunnel.Libraries.{Libraries, data_channel}
use mqtt_tunnel.Libraries.Calls.{publish}
use mqtt_tunnel.TunnelServer.State.{TunnelServer, Server, server_log}

-- `read` into the buffer.
abbrev pub overwrite : Str → Str → Str
overwrite buffer packet = packet ++ drop (length packet) buffer

unfoldable pub byte_at : Str → ℕ → ℕ
byte_at buffer i = elim (get_elem? buffer i) [ some b ↦ b | none ↦ 0 ]

-- `ip_header->daddr`: the four bytes from offset 16 on, as a number of the little-endian host.
unfoldable pub daddr : Str → ℕ
unfolding byte_at
daddr buffer =
    byte_at buffer 16
    + 256 * byte_at buffer 17
    + 65536 * byte_at buffer 18
    + 16777216 * byte_at buffer 19

-- The payload for a session, or nothing where the encryption throws: the handler logs and goes on.
kept : Result Str → Result (Option Str)
kept (ok payload) = ok (some payload)
kept (throw e) = ok none
kept fault = fault

unfoldable pub payload_for :
    Libraries → ℕ → Str → SessionConfig → TunnelServer → Result (Option Str)
unfolding kept
payload_for lib entropy packet session s =
    if s.encryption_enabled
    then kept (encrypt_data lib.sodium entropy s.crypto_manager packet session.client_id)
    else ok (some packet)

unfoldable pub publish_if : Libraries → Str → Option Str → Server (Unit {0})
unfolding publish
publish_if lib topic none = return tt
publish_if lib topic (some payload) = publish lib data_channel topic payload 0

unfoldable pub forward : Libraries → ℕ → Str → Bool × SessionConfig → Server (Unit {0})
unfolding payload_for publish_if
forward lib entropy packet (false, _) = return tt
forward lib entropy packet (true, session) = do
  payload ← call (payload_for lib entropy packet session)
  publish_if lib session.topic_inbound payload

-- A round of the loop: `none` is a failed read. The buffer has 1500 bytes.
unfoldable pub tun_round : Libraries → ℕ → Str → Option Str → Server Str
unfolding forward daddr
tun_round lib entropy buffer none = return buffer
tun_round lib entropy buffer (some packet) = do
  let filled = overwrite buffer packet
  session ← get (λ s.
      get_session_by_ip s.active_clients (ip_to_string lib.helpers (daddr filled)) empty_config)
  forward lib entropy packet session
  return filled
