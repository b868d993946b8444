-- ===== src/Tests.antt =====
-- Runs of the model at concrete inputs, and the theorems at inputs where their hypotheses hold.
mod Buffers
mod HciPackets
mod Timers
mod L2capPackets
mod Devices
mod Transfers
mod Receiving
mod Queues
mod Reports
mod Attributes
mod Commands
mod Bringing
mod Pairing
