-- ===== src/Cmd.antt =====
-- cmd/outage: the program around the conditions.
pub mod Satisfied
pub mod Arbitration
pub mod Description
pub mod Descriptor
pub mod Emitter
pub mod Run
pub mod Tree
