-- ===== src/Main.antt =====
-- src/main.cpp: `main`, with the vendored CLI11 as a parameter. The client's run flag is cleared once
-- the tunnel has started.
pub mod CommandLine
pub mod ThreadLog
pub mod ServerThread
pub mod ClientThread
pub mod Joined
use mqtt_tunnel.Base.{
  ℕ, Bool, false, not, List, Option, [], if◌then◌else◌, Result, ok, throw, fault, process_exit,
}
use mqtt_tunnel.Main.CommandLine.{
  Mode, mode_client, mode_server, Options, Cli, Parsed, refused, accepted, app_options, options_of,
}
use mqtt_tunnel.Base.Text.{Str, codes, str_eq}
use mqtt_tunnel.Base.State.{◌>>◌}
use mqtt_tunnel.Types.{TunnelMode, connection, gateway}
use mqtt_tunnel.CryptoManager.{FileSystem}
use mqtt_tunnel.Libraries.{Libraries, Moment, Effect}
use mqtt_tunnel.TunnelClient.State.{TunnelClient, Client}
use mqtt_tunnel.TunnelClient.Session.{Draws}
use mqtt_tunnel.TunnelClient.Tunnel.{start_tunnel, stop_tunnel}
use mqtt_tunnel.TunnelClient.Build.{TunnelClientBuilder}
use mqtt_tunnel.TunnelClient.Build as ClientBuild
use mqtt_tunnel.TunnelServer.State.{TunnelServer}
use mqtt_tunnel.TunnelServer.Loop.{start_server, stop_server}
use mqtt_tunnel.TunnelServer.Build.{TunnelServerBuilder}
use mqtt_tunnel.TunnelServer.Build as ServerBuild

unfoldable pub tunnel_mode_of : Str → TunnelMode
unfolding str_eq
tunnel_mode_of name = if str_eq name (codes "gateway") then gateway else connection

-- What the world does in a run: entropy, files, and the messages of the command channel.
pub record World : Type 0 where
  pub entropy : ℕ
  pub draws : Draws
  pub files : FileSystem
  pub inbox : List (Option Str)
  pub rounds : List (Moment × Option Str)

-- The handler of `main`, and `exit`, which it does not catch.
unfoldable pub exit_code : Result (Unit {0}) → Result ℕ
exit_code (ok _) = ok 0
exit_code (throw (process_exit code)) = ok code
exit_code (throw e) = ok 1
exit_code fault = fault

abbrev pub client_builder : Options → TunnelClientBuilder
client_builder o = ClientBuild.set_tunnel_mode (tunnel_mode_of o.tunnel_mode_str) (
    ClientBuild.set_ignore_server_authentication o.ignore_server_authentication (
      ClientBuild.set_enable_encryption (not o.unsecure) (
        ClientBuild.set_command_channel_name o.command_channel_name (
          ClientBuild.set_client_base_id o.client_id
            (ClientBuild.set_broker_address o.broker_address ClientBuild.new_builder)))))

unfoldable pub client_session : Libraries → World → Client (Unit {0})
client_session lib w = do start_tunnel lib w.draws w.files; stop_tunnel lib

unfoldable pub client_ended : Result (Unit {0}) × TunnelClient → Result ℕ × List Effect
client_ended (r, c) = (exit_code r, c.effects)

unfoldable pub client_run :
    Libraries → World → Result TunnelClient × FileSystem → Result ℕ × List Effect
client_run lib w (ok c, fs) = client_ended (client_session lib w c)
client_run lib w (throw e, fs) = (exit_code (throw e), [])
client_run lib w (fault, fs) = (fault, [])

abbrev pub server_builder : Options → TunnelServerBuilder
server_builder o = ServerBuild.set_interface_name o.interface_name (
    ServerBuild.set_enable_encryption (not o.unsecure) (
      ServerBuild.set_global_run_flag (
        ServerBuild.set_command_channel_name o.command_channel_name
          (ServerBuild.set_broker_address o.broker_address ServerBuild.new_builder))))

-- The destructor stops the server once more, also where an exception unwinds the stack.
unfoldable pub server_ended : Result (Unit {0}) × TunnelServer → Result ℕ × List Effect
server_ended (r, s) = (exit_code r, (stop_server s).effects)

unfoldable pub server_run :
    Libraries → World → Result TunnelServer × FileSystem → Result ℕ × List Effect
server_run lib w (ok s, fs) = server_ended (start_server lib w.rounds s)
server_run lib w (throw e, fs) = (exit_code (throw e), [])
server_run lib w (fault, fs) = (fault, [])

unfoldable pub run : Libraries → World → Options → Mode → Result ℕ × List Effect
run lib w o mode_client =
    client_run lib w (ClientBuild.build lib w.entropy w.inbox w.files (client_builder o))
run lib w o mode_server =
    server_run lib w (ServerBuild.build lib w.entropy w.files (server_builder o))

-- `main` from the end of the parsing on: the exit code, and what the program did to the outside world.
unfoldable pub run_app : Libraries → World → Options → Result ℕ × List Effect
run_app lib w o = run lib w o o.mode

unfoldable pub started : Libraries → World → Parsed → Result ℕ × List Effect
started lib w (refused code) = (ok code, [])
started lib w (accepted values) = run_app lib w (options_of values)

-- `main`: a command line that CLI11 refuses, or one that asks for help, ends it.
unfoldable pub main : Cli → Libraries → World → List Str → Result ℕ × List Effect
main cli lib w arguments = started lib w (cli.parse app_options arguments)
