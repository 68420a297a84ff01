-- ===== src/Realtime.antt =====
-- The open WebSocket connections of the users:
-- src/fb/infrastructure/realtime/connection_manager.py.
pub mod Connections
pub mod Dictionary
pub mod Events
pub mod Online
pub mod Tests
