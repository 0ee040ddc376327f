-- ===== src/Messages/Identifier.antt =====
-- src/messages.h: the kinds of message, and what a structure with a `serialize` member offers.
use mqtt_tunnel.Base.{ℕ, ◌-◌, ◌^◌, ◌==◌, if◌then◌else◌, Result}
use mqtt_tunnel.Base.Int.{ℤ, pos, negsuc}
use mqtt_tunnel.Cereal.{Document}

-- An identifier is read from the network: `other_identifier` is a value with no enumerator.
pub data MessageIdentifier : Type 0 where
  client_hello_crypto server_hello_crypto client_hello server_hello client_ack : MessageIdentifier
  server_ack handshake_rst session_termination encrypted_wrapper : MessageIdentifier
  other_identifier : ℕ → MessageIdentifier

abbrev pub identifier_to_number : MessageIdentifier → ℕ
identifier_to_number client_hello_crypto = 1
identifier_to_number server_hello_crypto = 2
identifier_to_number client_hello = 3
identifier_to_number server_hello = 4
identifier_to_number client_ack = 5
identifier_to_number server_ack = 6
identifier_to_number handshake_rst = 7
identifier_to_number session_termination = 8
identifier_to_number encrypted_wrapper = 9
identifier_to_number (other_identifier n) = n

abbrev pub identifier_of_number : ℕ → MessageIdentifier
identifier_of_number n =
    if n == 1
    then client_hello_crypto
    else if n == 2
    then server_hello_crypto
    else if n == 3
    then client_hello
    else if n == 4
    then server_hello
    else if n == 5
    then client_ack
    else if n == 6
    then server_ack
    else if n == 7
    then handshake_rst
    else if n == 8
    then session_termination
    else if n == 9
    then encrypted_wrapper
    else other_identifier n

-- `static_cast<MessageIdentifier>` of an `int`.
abbrev pub identifier_of_int : ℤ → MessageIdentifier
identifier_of_int (pos n) = identifier_of_number n
identifier_of_int (negsuc n) = other_identifier (2 ^ 32 - 1 - n)

-- A structure with a `serialize` member: what it saves, and how it is loaded.
pub record Serializable (M : Type 0) : Type 0 where
  pub save : M → Document
  pub load : Document → Result M
