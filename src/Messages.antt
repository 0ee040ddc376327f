-- ===== src/Messages.antt =====
-- src/messages.h: the kinds of message, and the structures of the handshake and of the encrypted
-- wrapper. Each structure's `serialize` lists its members by name; it serves both directions.
pub mod Identifier
pub mod Serializer
pub mod Handshake
pub mod Session
pub mod Crypto
pub mod RoundTrip
pub mod Laws
pub use Identifier.*
pub use Serializer.{MessageHeader}
unfoldable pub use Serializer.{to_string, from_string, header_from_string, load_header}
unfoldable pub use Handshake.*
unfoldable pub use Session.*
unfoldable pub use Crypto.*
