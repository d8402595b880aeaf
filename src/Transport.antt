-- ===== src/Transport.antt =====
-- transport/client.go and transport/message.go: the WhatsApp client. whatsmeow is a parameter.
pub mod Retry
pub mod Members
pub mod Groups
pub mod Presence
pub mod Opening
