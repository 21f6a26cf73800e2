-- ===== src/Smtp.antt =====
-- internal/smtp: MTA-STS policies, delivery to other servers, the MX listener and the submission
-- listener.
pub mod Sts
pub mod Client
pub mod Outbound
pub mod Smarthost
pub mod Reply
pub mod Submission
pub mod Inbound
pub mod Mime
mod Tests
