-- ===== src/Live.antt =====
-- The live view: cloud/common/ws.
pub mod Socket
pub mod Fanout
pub mod Publication
pub mod HeatmapHub
pub mod Hub
pub mod View
pub mod Manager
pub mod Sequence
pub mod Fallback
pub mod Coverage
pub mod Broadcaster
