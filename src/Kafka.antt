-- ===== src/Kafka.antt =====
-- internal/platform/kafka: producing, consuming, dead letters.
pub mod Wire
pub mod Consumer
pub mod Admin
