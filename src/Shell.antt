-- ===== src/Shell.antt =====
-- bap-frontend/src/App.jsx: the routes of the buyer's application and its bar of links; and the
-- badges and dates that the pages of both applications share.
pub mod Routes
pub mod Badges
mod Tests
