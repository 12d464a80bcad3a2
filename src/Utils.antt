-- ===== src/Utils.antt =====
-- src/utils: phone numbers, pages, retries and validators.
pub mod Phone
pub mod Pagination
pub mod Retry
pub mod Validators
