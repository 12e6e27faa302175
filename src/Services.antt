-- ===== src/Services.antt =====
-- services/: the parts of the program that the handlers share, one module for each file.
pub mod ShortCode
pub mod Destinations
pub mod DenyList
pub mod DnsCache
pub mod Clicks
pub mod ClickStream
pub mod Webhooks
pub mod Unfurl
pub mod Validation
