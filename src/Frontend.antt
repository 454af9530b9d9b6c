-- ===== src/Frontend.antt =====
-- src/frontend/src/: the logic of the web client behind its views.
pub mod Session
pub mod Access
pub mod JobStream
pub mod Forms
pub mod Requests
pub mod Views
