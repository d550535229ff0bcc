-- ===== src/Site.antt =====
-- The scripts of the documentation pages, under docs/scripts.
pub mod Text
pub mod Platforms
pub mod Filters
pub mod Tabs
pub mod Navigation
pub mod Parameters
pub mod Clipboard
pub mod Theme
pub mod Anchors
pub mod Load
