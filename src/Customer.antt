-- ===== src/Customer.antt =====
-- The customer bounded context (internal/customer).
pub mod Email
pub mod Aggregate
pub mod Repository
pub mod Messaging
pub mod Commands
pub mod ReadModel
pub mod Server
