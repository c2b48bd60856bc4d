-- ===== src/Tests.antt =====
-- The theorems at concrete inputs.
mod Platform
mod Queues
mod Tables
mod Links
mod Routes
mod Handlers
mod Radio
mod Packets
mod Tasks
mod Text
mod Service
mod Setup
mod Requests
mod Sending
