-- ===== src/Protocol/Parameters.antt =====
-- inc/protocol.h: the union FltParameters by the kinds of operations.
pub mod Requests
pub mod Callbacks
pub mod FastIo
