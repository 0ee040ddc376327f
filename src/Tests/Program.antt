-- ===== src/Tests/Program.antt =====
-- Runs of the whole program, as a server and as a client.
use mqtt_tunnel.Base.{◌≡◌, refl, none, some, [], ◌∷◌, ok}
use mqtt_tunnel.Base.Text.{codes}
use mqtt_tunnel.Main.{started, World, main}
use mqtt_tunnel.Main.CommandLine.{
  Cli, accepted, refused, mode_option, broker_option, client_id_option, command_topic_option,
  insecure_flag,
}
use mqtt_tunnel.Fixtures.{lib, draws, no_files, moment, hello_text, ack_text}

-- A command line of two words: the mode, as its number, and the client's id.
abbrev cli : Cli
cli = record {
  parse = λ options arguments. elim arguments [
    | [] ↦ refused 106
    | mode ∷ rest ↦ accepted (
        (mode_option.names, mode)
        ∷ (broker_option.names, codes "broker")
        ∷ (client_id_option.names, codes "a")
        ∷ (command_topic_option.names, codes "ch")
        ∷ (insecure_flag.names, codes "true")
        ∷ [])
  ];
}

abbrev world : World
world = record {
  entropy = 6;
  draws = draws;
  files = no_files;
  inbox = [];
  rounds = (moment, some hello_text) ∷ (moment, none) ∷ (moment, some ack_text) ∷ [];
}

-- A command line that CLI11 refuses does nothing.
refused_run : main cli lib world [] ≡ (ok 106, [])
unfolding main started
refused_run = refl
