-- ===== src/Flow.antt =====
-- PolicyFlowPage.jsx of the buyer's app: a policy from the details of the vehicle to its issue.
mod Tests
pub mod Views
pub mod Forms
pub mod Quote
pub mod Payment
pub mod Policy
pub mod Page
