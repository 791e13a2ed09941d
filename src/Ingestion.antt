-- ===== src/Ingestion.antt =====
-- Sources and their objects (packages/data_profiling/src/vda_data/ingestion and
-- packages/adapters/src/vda_adapters/s3).
pub mod Objects
pub mod Sources
pub mod Port
