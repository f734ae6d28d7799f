-- ===== src/Config.antt =====
-- src/fand/config.c: the configuration file. Setting stores one value, Matrix reads the fan curve, Append
-- collects the lines of a matrix, File goes through the file. Regular expressions, `tolower` and `strtoul` are
-- the C library's and enter as the record `CLibrary`.
pub mod CLibrary
pub mod Setting
pub mod Matrix
pub mod Append
pub mod File
pub mod Settings
pub mod Ranges
pub mod Joined
pub mod Parsing
pub mod Text
pub mod Stored
pub mod Overflow
pub mod Written
pub mod Sample
mod Tests
