-- ===== src/Tests.antt =====
-- Runs at concrete data, and the theorems applied to them.
mod Stores
mod Addresses
mod Nodes
mod Outputs
mod Settings
mod Parsing
mod Requests
mod Shares
