-- ===== src/Tests.antt =====
-- Concrete runs of the models.
pub mod Answers
pub mod Sessions
pub mod Fetches
pub mod Proxies
pub mod Exchanges
pub mod Requests
pub mod Settings
pub mod Digests
pub mod Recordings
pub mod Stores
pub mod Https
pub mod Transfers
