-- ===== src/Main/CommandLine.antt =====
-- src/main.cpp: the options of the command line, and the variables that they set. CLI11 is a parameter:
-- it refuses a command line with an exit code, or assigns values to options.
use mqtt_tunnel.Base.{ℕ, Bool, true, false, List, [], ◌∷◌, Option, none, some, if◌then◌else◌}
use mqtt_tunnel.Base.Text.{Str, codes, str_eq}
use mqtt_tunnel.Base.Dict.{Dict, lookup}

pub data Mode : Type 0 where
  mode_client mode_server : Mode

-- The variables that the command line sets.
pub record Options : Type 0 where
  pub mode : Mode
  pub broker_address : Str
  pub client_id : Str
  pub command_channel_name : Str
  pub tunnel_mode_str : Str
  pub interface_name : Str
  pub unsecure : Bool
  pub ignore_server_authentication : Bool

abbrev pub defaults : Mode → Str → Str → Options
defaults mode broker_address client_id = record {
  mode = mode;
  broker_address = broker_address;
  client_id = client_id;
  command_channel_name = codes "mqtt_tunnel/commands";
  tunnel_mode_str = codes "connection";
  interface_name = codes "enp0s5";
  unsecure = false;
  ignore_server_authentication = false;
}

-- What follows an option's names: nothing for a flag, a text, or one of the words of a table, which the
-- transformer replaces by the decimal of its number, whatever the case of its letters.
pub data OptionKind : Type 0 where
  flag text : OptionKind
  word : Dict ℕ → OptionKind

-- A call of `add_option` or `add_flag`.
pub record AppOption : Type 0 where
  pub names : Str
  pub kind : OptionKind
  pub required : Bool

abbrev option_of : Str → OptionKind → Bool → AppOption
option_of names kind required = record { names = names; kind = kind; required = required }

abbrev pub mode_option : AppOption
mode_option =
    option_of (codes "-m,--mode") (word ((codes "client", 0) ∷ (codes "server", 1) ∷ [])) true

abbrev pub broker_option : AppOption
broker_option = option_of (codes "-b,--broker") text true

abbrev pub client_id_option : AppOption
client_id_option = option_of (codes "-i,--client-id") text true

abbrev pub command_topic_option : AppOption
command_topic_option = option_of (codes "-t,--command-topic") text false

abbrev pub tunnel_mode_option : AppOption
tunnel_mode_option = option_of (codes "-T, --tunnel-mode") text false

abbrev pub verbose_flag : AppOption
verbose_flag = option_of (codes "-v,--verbose") flag false

abbrev pub interface_option : AppOption
interface_option = option_of (codes "--interface") text false

abbrev pub insecure_flag : AppOption
insecure_flag = option_of (codes "--insecure") flag false

abbrev pub no_server_auth_flag : AppOption
no_server_auth_flag = option_of (codes "--no-server-auth") flag false

abbrev pub app_options : List AppOption
app_options =
    mode_option ∷ broker_option ∷ client_id_option ∷ command_topic_option ∷ tunnel_mode_option
    ∷ verbose_flag ∷ interface_option ∷ insecure_flag ∷ no_server_auth_flag ∷ []

-- What CLI11 makes of a command line: an exit code, or the value of each option that is there, under the
-- option's names.
pub data Parsed : Type 0 where
  refused : ℕ → Parsed
  accepted : Dict Str → Parsed

pub record Cli : Type 0 where
  pub parse : List AppOption → List Str → Parsed

-- A variable keeps its initial value where the option is not there.
abbrev pub value_or : Str → Option Str → Str
value_or initial none = initial
value_or initial (some v) = v

abbrev pub is_set : Option Str → Bool
is_set none = false
is_set (some v) = true

abbrev pub mode_of : Option Str → Mode
mode_of none = mode_client
mode_of (some v) = if str_eq v (codes "1") then mode_server else mode_client

-- The variables of `main` after the parsing.
unfoldable pub options_of : Dict Str → Options
options_of values =
    let initial = defaults mode_client [] [] in
    record {
      mode = mode_of (lookup mode_option.names values);
      broker_address = value_or initial.broker_address (lookup broker_option.names values);
      client_id = value_or initial.client_id (lookup client_id_option.names values);
      command_channel_name =
          value_or initial.command_channel_name (lookup command_topic_option.names values);
      tunnel_mode_str = value_or initial.tunnel_mode_str (lookup tunnel_mode_option.names values);
      interface_name = value_or initial.interface_name (lookup interface_option.names values);
      unsecure = is_set (lookup insecure_flag.names values);
      ignore_server_authentication = is_set (lookup no_server_auth_flag.names values);
    }
