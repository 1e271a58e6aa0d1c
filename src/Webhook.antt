-- ===== src/Webhook.antt =====
-- pkg/messaging/webhook: the backend that posts envelopes to callback URLs.
pub mod Ring
pub mod Outbox
pub mod Backend
mod Tests
