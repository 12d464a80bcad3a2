-- ===== src/System.antt =====
-- The parts of the program together: requests, webhooks and tasks on one database.
pub mod Dialable
pub mod Webhooks
pub mod Access
pub mod Sends
pub mod Deliveries
pub mod Uploads
pub mod Manage
pub mod Campaigns
pub mod Commands
pub mod Phones
