-- ===== src/Chat.antt =====
-- The conversations between a client and the providers that were dispatched to a request
-- (apps/api/src/chat).
pub mod Contacts
pub mod Conversations
pub mod Messages
