-- ===== src/Merge.antt =====
-- integration/wallet_merge.py.
pub mod Profiles
pub mod Wallets
pub mod Fields
mod Tests
