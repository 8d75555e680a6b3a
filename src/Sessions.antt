-- ===== src/Sessions.antt =====
-- Sessions with KSeF: app/services/ksef_session_service.py.
pub mod Rows
pub mod Service
pub mod Status
pub mod Count
pub mod Single
pub mod Probe
pub mod Stale
pub mod Connected
pub mod Opened
