-- ===== src/Sender.antt =====
-- sender_proc/
pub mod Package
pub mod AwaitStack
pub mod ForwardStack
pub mod Sink
pub mod Clients
