-- ===== src/Kafka/Admin.antt =====
-- internal/platform/kafka: creating topics (admin.go), and the clients that a producer and a consumer
-- hold (`NewProducer` and the end of `NewConsumer`).
use sagaflow.Base.{ℕ, String, Option, none, some, List, [], ◌∷◌, if◌then◌else◌}
use sagaflow.Errors.{Error, Result, ok, err, wrap, errors_is, topic_already_exists}
use sagaflow.Process.{
  Drivers, Process, new_kafka_client, hold_admin, drop_admin, hold_producer, hold_consumer,
  on_world, acquire,
}
use sagaflow.Io.{Io, pure, annotate, deferred, ◌>>=◌, ◌>>◌}
use sagaflow.Kafka.Consumer.{ConsumerConfig, new_consumer}

abbrev pub partition_count : ℕ
partition_count = 6

-- The loop over the answers: a topic that was there already is no failure.
unfoldable pub check_topics : List (String × Option Error) → Result (Unit {0})
check_topics [] = ok tt
check_topics ((topic, none) ∷ rest) = check_topics rest
check_topics ((topic, some e) ∷ rest) =
    if errors_is e topic_already_exists
    then check_topics rest
    else err (wrap "kafka: create topic" e)

module _ {S : Type 0} (drivers : Drivers S) where
  open drivers use {call, create_topics}

  unfoldable pub ensure_topics : List String → ℕ → ℕ → List String → Io (Process S) (Unit {0})
  ensure_topics brokers partitions replication topics = do
    annotate "kafka: admin client" (acquire hold_admin (call (new_kafka_client brokers)))
    deferred drop_admin (do
      answers ←
          annotate "kafka: create topics" (on_world (create_topics partitions replication topics))
      λ p. (check_topics answers, p))

  unfoldable pub new_producer : List String → Io (Process S) (Unit {0})
  new_producer brokers =
      annotate "kafka: new producer" (acquire hold_producer (call (new_kafka_client brokers)))

  -- `NewConsumer`: the config with its defaults, and the client.
  unfoldable pub open_consumer : List String → ConsumerConfig → Io (Process S) ConsumerConfig
  open_consumer brokers given = do
    cfg ← λ p. (new_consumer given, p)
    annotate "kafka: new consumer" (acquire hold_consumer (call (new_kafka_client brokers)))
    pure cfg
