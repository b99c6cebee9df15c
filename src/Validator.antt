-- ===== src/Validator.antt =====
-- core/blockchain/validator.go: the transaction pool of a validator.
pub mod Account
pub mod Exception
pub mod Accounts
pub mod Pool
pub mod Grouping
