-- ===== src/CryptoManager.antt =====
-- src/CryptoManager.hpp and src/CryptoManager.cpp: the identity of the server, the key exchange, and
-- the encryption of packets under the keys of a session.
pub mod Files
pub mod Keys
pub mod Packets
pub mod Exchange
pub mod Identity
pub mod PacketLaws
pub mod Agreement
pub mod Authentication
unfoldable pub use Files.*
unfoldable pub use Keys.*
unfoldable pub use Packets.*
unfoldable pub use Exchange.*
