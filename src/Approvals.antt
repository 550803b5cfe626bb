-- ===== src/Approvals.antt =====
-- engine/approvals: the Allow/Ask/Deny policy of each tool, the log of approval requests, and the
-- broker that gates a sensitive call.
pub mod Types
pub mod Policy
pub mod Requests
pub mod Broker
