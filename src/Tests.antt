-- ===== src/Tests.antt =====
-- Runs of the model at concrete inputs, and the theorems applied to them.
mod Buffers
mod Requests
mod Connections
mod Loops
mod Responses
mod Pieces
mod Servers
mod Alarms
mod Threads
mod Sessions
mod KeptConnections
mod Epollers
mod Lifetimes
