-- ===== src/Webhooks.antt =====
-- services/webhook_service.py.
pub mod Kept
pub mod Signature
pub mod Status
pub mod Events
pub mod Processing
