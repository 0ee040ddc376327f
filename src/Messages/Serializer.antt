-- ===== src/Messages/Serializer.antt =====
-- src/messages.h: `MessageSerializer`, and the header that names the kind of a message.
use mqtt_tunnel.Base.{Option, none, some, Result, ok, throw, ◌>>=◌, cereal_exception}
use mqtt_tunnel.Base.Text.{Str, codes}
use mqtt_tunnel.Base.Int.{ℤ}
use mqtt_tunnel.Cereal.{Document, Cereal, load_int}
use mqtt_tunnel.Messages.Identifier.{Serializable}

-- `MessageSerializer<MessageType>`
module _ {M : Type 0} ⦃s : Serializable M⦄ (c : Cereal) where
  unfoldable pub to_string : M → Str
  to_string message = c.write (s.save message)

  load_parsed : Option Document → Result M
  load_parsed none = throw cereal_exception
  load_parsed (some d) = s.load d

  unfoldable pub from_string : Str → Result M
  unfolding load_parsed
  from_string text = load_parsed (c.parse text)

-- `MessageHeader`: the identifier alone, as an `int`; it is only read.
pub record MessageHeader : Type 0 where
  pub type : ℤ

abbrev header_of : Result ℤ → Result MessageHeader
header_of r = r >>= λ z. ok (record { type = z })

unfoldable pub load_header : Document → Result MessageHeader
unfolding load_int
load_header d = header_of (load_int (codes "message_identifier") d)

header_parsed : Option Document → Result MessageHeader
unfolding load_header
header_parsed none = throw cereal_exception
header_parsed (some d) = load_header d

unfoldable pub header_from_string : Cereal → Str → Result MessageHeader
unfolding header_parsed
header_from_string c text = header_parsed (c.parse text)
