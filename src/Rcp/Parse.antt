-- ===== src/Rcp/Parse.antt =====
-- The response parsers of rcp.py.
pub mod Envelope
pub mod Words
pub mod Zones
pub mod Catalogs
pub mod Exact
