-- ===== src/Serialize.antt =====
-- src/common/serialize.c: the format strings of packf and unpackf and their automaton (Dfa), the two
-- routines (Pack, Unpack), and the messages between daemon and client (Message). Bytes holds the
-- memory layout. Fields describes a format string with its arguments as a list of fields.
pub mod Dfa
pub mod Conversion
pub mod Bytes
pub mod Outcome
pub mod Pack
pub mod Unpack
pub mod Fields
pub mod Ends
pub mod Message
mod Tests
