-- ===== src/Examples.antt =====
-- Runs of the modelled code on small inputs.
pub mod Funds
pub mod Trading
pub mod Trees
pub mod Locking
pub mod Coding
pub mod Parents
pub mod Requests
pub mod Contracts
pub mod Waiting
pub mod Exchange
pub mod Observed
pub mod Parties
pub mod Downloads
pub mod Polls
