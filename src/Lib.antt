-- ===== src/Lib.antt =====
-- A verification library for MQTT_Tunnel, a layer 3 tunnel over an MQTT broker: a server that leases
-- addresses of a /24 net to clients, a handshake on a command channel, an optional exchange of keys,
-- and packets of a TUN device on a data channel.
--
-- The program's parts, the files that model them, and how they interact:
--   src/ip_pool.cpp, src/ip_pool.h: IpPool. `create`, `allocate_ip`, `release_ip` and
--     `count_allocated` are the constructor and the methods of `IPPool`. Only the server uses it.
--   src/types.hpp: Types. src/SessionMap.hpp: SessionMap, at the one type that it is used at.
--   src/helpers.h: Helpers. src/messages.h: Messages, a file for each group of messages.
--   src/CryptoManager.cpp, src/CryptoManager.hpp: CryptoManager. Files has the identity files, Keys the
--     members and the constructor, Packets `encrypt_data` and `decrypt_data`, Exchange the key exchange.
--   src/TunCallback.cpp: TunCallback, what arrives on the data channel. src/TunDevice.cpp: TunDevice,
--     constructor and destructor. src/MQTTChannels.cpp: MqttChannels, the two MQTT clients and their ids.
--   src/TunnelServer.cpp, src/TunnelServer.hpp: TunnelServer. State has the members, Handshake
--     `handle_client_handshake`, one function for each case, Loop `start_server` and `stop_server`,
--     TunRead a round of `async_tun_read`, Build the builder and the constructor. Replies, Plain and
--     Secure have the messages of a handshake, without and with encryption, as single steps, Wrapped
--     encrypted messages, Refused and Exhausted what goes wrong, Ending the end of a session, Stopping
--     the shutdown, Forwarding the packets, Routing the sessions that addresses lead to, Observed what
--     messages leave alone, and Leases the invariant of pool and sessions (Leases.Leak a second hello
--     of an active client). Threads has the main thread and the TUN thread as steps on one server,
--     with the schedules of them.
--   src/TunnelClient.cpp, src/TunnelClient.hpp: TunnelClient. State has the members and the polling
--     loop, Session the parts of `setup_session`, Tunnel the start, the stop and a round of
--     `async_tun_read`, Build the builder and the constructor, Parts, Plain and Secure the parts of a
--     handshake as single steps, Unanswered a server that is silent, Forwarding a packet to the server.
--   src/main.cpp: Main, and Main.CommandLine the options and what they set; Main.ThreadLog and the files
--     beside it follow the thread of each side through the log of a run.
--   Handshake and SecureHandshake run client and server against each other, without and with
--     encryption, SecureHandshake.Carriage with the packets after it and SecureHandshake.Release with
--     its end; Logs says that a message is in a log.
--
-- How state and failure are modelled: a method is a function from its object to an outcome and the
-- object that it leaves, also where it throws (Base/State). An outcome is a value, an exception, or
-- `fault` for undefined behaviour (Base/Outcome). Calls that reach the outside (MQTT, `system`, the
-- threads) are entries of a log, in their order. Strings are lists of bytes; `int`, `size_t` and
-- `unsigned int` keep their bounds and wrap around where the code depends on it.
--
-- Parameters, code that is not in the repository: cereal's JSON text (Cereal, with `CerealLaws`:
-- what was written is read back), libsodium (Sodium, with `SodiumLaws`: its documented round trips,
-- sizes and the agreement of keys), SHA-256 and `inet_ntop` (Helpers), the results of the kernel's
-- calls on the TUN device (TunDevice), whether calls of the MQTT library succeed (Libraries), and
-- what CLI11 makes of a command line (Main.CommandLine). Hypotheses on them are named: `Delivers`
-- (the MQTT library reports no failure), `Seals` (libsodium does not fail to encrypt). Fixtures,
-- Cereal/Toy and Sodium/Toy have stand-ins that meet the laws, and Tests and IpPool/Tests apply the
-- theorems to them.
--
-- Bounds and fuel: `std::to_string` takes as many rounds as the number plus one, and each round divides
-- by ten. The server's loop is a list of what each poll finds, ended by the run flag; the client's
-- polling loop has the program's three trials. Nothing else needs fuel.
--
-- The threads' schedules are lists of turns; the shutdown needs five turns of the TUN thread and three
-- of the main thread, which Threads.Progress proves enough.
--
-- Not modelled: the vendored third_party/CLI11.hpp, which parses the command line and is a
-- parameter (Main.CommandLine), log output, and failures of `disconnect`. In Threads a message is
-- one step of the main thread, and the accesses to the keys are atomic, though the program has no
-- lock for them; the thread of the MQTT library that runs `TunCallback` is not among the threads,
-- since it only reads. The client's two threads are functions of their own. Members of the crypto
-- manager that nothing reads are left out.
pub mod Base
pub mod Types
pub mod IpPool
pub mod SessionMap
pub mod Helpers
pub mod Cereal
pub mod Sodium
pub mod Messages
pub mod CryptoManager
pub mod TunDevice
pub mod TunCallback
pub mod MqttChannels
pub mod Libraries
pub mod TunnelServer
pub mod TunnelClient
pub mod Logs
pub mod Handshake
pub mod SecureHandshake
pub mod Main
pub mod Fixtures
pub mod Tests
