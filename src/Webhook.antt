-- ===== src/Webhook.antt =====
-- internal/webhookdelivery: the queue of deliveries, and one delivery with its retries.
pub mod Headers
pub mod Delivery
pub mod Outcomes
pub mod Redaction
pub mod Queue
pub mod Backlog
pub mod Samples
