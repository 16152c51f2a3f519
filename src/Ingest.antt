-- ===== src/Ingest.antt =====
-- The ingest worker: cloud/common/schemas/anomaly.py and cloud/ingest_worker.
pub mod Anomaly
pub mod Service
pub mod Rows
pub mod Cases
pub mod Consumer
pub mod Once
pub mod Creation
pub mod Redelivery
