-- ===== src/Publish.antt =====
-- bpp-frontend/src/pages/PublishPage.jsx: the wizard that publishes a catalogue.
pub mod Nested
pub mod Errors
mod Tests
pub mod Items
pub mod Demo
pub mod Editor
pub mod Suffix
pub mod Forms
pub mod Steps
pub mod Submit
pub mod Wire
pub mod Wizard
