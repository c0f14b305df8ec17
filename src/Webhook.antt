-- ===== src/Webhook.antt =====
-- Webhook deliveries: internal/usecase/webhook.go.
pub mod Create
pub mod Delivery
pub mod Worker
