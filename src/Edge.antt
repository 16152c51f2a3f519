-- ===== src/Edge.antt =====
-- The edge: edge/vision.
pub mod Debounce
pub mod Sink
pub mod Detector
pub mod Zones
pub mod Adapters
pub mod Anomalies
pub mod Payloads
pub mod Engine
