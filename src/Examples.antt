-- ===== src/Examples.antt =====
-- The theorems at concrete inputs.
mod World
mod Seats
mod Deliveries
mod Envelopes
mod Services
mod Claims
mod Starts
mod Groups
