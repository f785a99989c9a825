-- ===== src/Tests.antt =====
-- The theorems applied to small inputs, and the data that these runs share.
pub mod Data
mod Queues
mod Keys
mod Functions
mod Objects
mod Requests
mod Signatures
mod Secrets
mod Parameters
mod Reloads
mod Machines
mod Terminations
