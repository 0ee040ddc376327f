-- ===== src/Tests/Messages.antt =====
-- A message of each direction, written and read.
use mqtt_tunnel.Base.{◌≡◌, false, [], ok}
use mqtt_tunnel.Base.Text.{codes}
use mqtt_tunnel.Base.Int.{pos}
use mqtt_tunnel.Types.{gateway}
use mqtt_tunnel.Cereal.Toy.{toy, toy_laws}
use mqtt_tunnel.Messages.{client_hello, identifier_to_number, header_from_string}
use mqtt_tunnel.Messages.Laws.{
  Message, a_client_hello, ReadsBack, from_string-to_string, text, identifier,
  header_from_string-text,
}

abbrev hello : Message
hello = a_client_hello (record {
  message_identifier = client_hello;
  client_base_id = codes "a";
  authentication = false;
  auth_data = [];
  handshake_identifier = codes "12";
  tunnel_mode = gateway;
})

from_string-to_string_example : ReadsBack toy hello
from_string-to_string_example = from_string-to_string toy hello toy_laws (tt, tt)

header_from_string-text_example :
    header_from_string toy (text toy hello)
    ≡ ok (record { type = pos (identifier_to_number (identifier hello)) })
header_from_string-text_example = header_from_string-text toy hello toy_laws tt
