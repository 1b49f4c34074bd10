-- ===== src/Examples.antt =====
-- The theorems at concrete inputs, and small runs of the definitions.
mod Scheduling
mod Working
mod Sending
mod Tables
mod Learning
mod Packets
mod Load
mod Clients
mod Handover
mod Rounds
mod Arrivals
mod Dispatch
mod Whole
