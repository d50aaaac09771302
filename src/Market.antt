-- ===== src/Market.antt =====
-- From the wizard's resource to the buyer's card: the requests of PublishPage.jsx, the answers of the
-- insurer's back end, and what the pages of both applications show of them.
pub mod Backend
pub mod Entered
pub mod Reads
pub mod Found
pub mod Saved
pub mod Order
pub mod Quote
pub mod Listed
pub mod Whole
mod Tests
