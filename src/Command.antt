-- ===== src/Command.antt =====
-- services/matching-engine/internal/kafka/command.go: from a Kafka message to the engine's input.
pub mod Handle
pub mod Accepted
