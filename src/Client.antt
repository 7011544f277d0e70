-- ===== src/Client.antt =====
-- MiniMonClient, the user-mode command line client.
pub mod Text
pub mod Number
pub mod Flags
pub mod Names
pub mod Windows
pub mod Payload
pub mod Entries
pub mod Details
pub mod Format
pub mod Queue
pub mod Session
pub mod Sink
pub mod Filter
pub mod CommandLine
