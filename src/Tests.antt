-- ===== src/Tests.antt =====
-- Runs of the program's parts on small inputs, and the theorems applied to them.
pub mod Crypto
pub mod Delivery
pub mod Messages
pub mod Sessions
pub mod Runs
pub mod Server
pub mod Packets
pub mod Secure
pub mod Threads
pub mod Program
