-- ===== src/Rcp.antt =====
-- rcp.py: the Remote Configuration Protocol, through the cloud proxy and on the LAN.
pub mod Markup
pub mod Wire
pub mod Session
pub mod Read
pub mod Local
pub mod Https
pub mod Write
pub mod Parse
pub mod Judge
pub mod Fetch
