-- ===== src/Nodes.antt =====
-- The nodes: what an administrator and the monitor do to them
-- (backend/app/services/node_service.py, backend/app/workers/node_monitor.py).
pub mod Offline
pub mod Monitor
pub mod Paused
pub mod Elsewhere
pub mod Interrupt
