-- ===== src/Tests.antt =====
-- Concrete runs of the model, and the theorems at concrete inputs.
mod Samples
mod Prices
mod Accounts
mod Funds
mod Messages
mod Transactions
mod Solvency
mod Parameters
mod Storage
mod World
mod Actions
