-- ===== src/Webauth.antt =====
-- webauth/: membership-gated magic links and sessions for a dashboard.
pub mod Config
pub mod Defaults
pub mod Codec
pub mod Token
pub mod Authentic
pub mod Auth
pub mod Server
pub mod Links
pub mod Grants
pub mod Spent
pub mod Denials
pub mod Sessions
pub mod LiveLinks
pub mod Lasting
pub mod Tickets
