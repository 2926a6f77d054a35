-- ===== src/Examples.antt =====
-- The theorems at concrete inputs, and runs of the definitions.
mod Codecs
mod Assets
mod Wallet
mod Manager
mod Coins
mod Batches
mod Renewal
