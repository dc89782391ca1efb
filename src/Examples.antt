-- ===== src/Examples.antt =====
-- Concrete inputs: a bucket in memory, and the theorems applied to sessions and messages.
mod Memory
mod Sessions
mod Messages
mod Values
mod Clients
mod Stations
mod Terminations
mod Translations
mod Routes
mod Contracts
mod Bridges
mod Tokens
mod Composer
