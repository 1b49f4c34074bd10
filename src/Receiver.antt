-- ===== src/Receiver.antt =====
-- receiver_proc/: what the worker makes of a packet from the server.
pub mod UserData
pub mod InstanceData
pub mod Queries
pub mod Stage
pub mod Finish
