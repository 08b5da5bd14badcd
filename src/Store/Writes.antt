-- ===== src/Store/Writes.antt =====
-- The functions of apps/host_agent/src/storage/sqlite_store.cpp that write: one action each.
use capacity_agent.Base.{ℕ, Bool, Option, none, some, Text, codes, length}
use capacity_agent.Base.Int.{ℤ}
use capacity_agent.Bridge.Messages.{
  HelloMessage, CatalogSensor, CatalogSnapshotMessage, SensorSample, SampleBatchMessage,
  HeartbeatMessage,
}
use capacity_agent.Store.Json.{
  collector_id, build_machine_extra_json, build_hello_extra_json, build_catalog_extra_json,
  build_sample_extra_json, build_heartbeat_extra_json,
}
use capacity_agent.Store.Statements.{
  upsert_machine_catalog, upsert_collector_health, upsert_sensor_catalog, insert_sensor_samples,
  insert_gpu_samples, insert_ollama_runtime_samples,
}
use capacity_agent.Store.Connection.{
  Action, both, for_each, run_statement, open_if_needed, transaction,
}
use capacity_agent.Store.Bindings.{
  GpuSample, OllamaSample, collector_bindings, gpu_bindings, machine_bindings, ollama_bindings,
  sample_bindings, sensor_bindings,
}

module _ {D : Type 0} (fails : ℕ → Bool) where
  unfoldable pub upsert_machine : Text → Option Text → Option Text → ℤ → Option Text → Action D
  upsert_machine machine_id hostname display_name seen extra_json =
      run_statement fails upsert_machine_catalog
        (machine_bindings machine_id hostname display_name seen extra_json)

  unfoldable pub upsert_collector :
      Text
      → Text
      → Text
      → Text
      → Text
      → Option ℤ
      → Option ℤ
      → Option Text
      → ℤ
      → Option Text
      → Action D
  upsert_collector id machine_id source collector_type status last_hello last_sample last_error
        updated extra_json =
      run_statement fails upsert_collector_health (
        collector_bindings id machine_id source collector_type status last_hello last_sample
          last_error updated extra_json)

  unfoldable pub upsert_catalog_sensor : CatalogSnapshotMessage → CatalogSensor → Action D
  upsert_catalog_sensor message sensor =
      run_statement fails upsert_sensor_catalog (sensor_bindings message.envelope sensor)

  unfoldable pub insert_sensor_sample : SampleBatchMessage D → SensorSample D → Action D
  insert_sensor_sample message sample =
      run_statement fails insert_sensor_samples (sample_bindings message sample)

  unfoldable pub upsert_hello : HelloMessage → Action D
  upsert_hello message =
      let e = message.envelope in
      transaction fails (
        both
          (upsert_machine e.machine_id (some message.hostname) (some message.hostname)
            e.sent_at_utc_ms (some (build_machine_extra_json message)))
          (upsert_collector (collector_id e.machine_id e.source) e.machine_id e.source
            (codes "bridge") (codes "ok") (some e.sent_at_utc_ms) none none e.sent_at_utc_ms
            (some (build_hello_extra_json message))))

  unfoldable pub upsert_catalog_snapshot : CatalogSnapshotMessage → Action D
  upsert_catalog_snapshot message =
      let e = message.envelope in
      transaction fails (
        both (upsert_machine e.machine_id none none e.sent_at_utc_ms none) (
          both
            (upsert_collector (collector_id e.machine_id e.source) e.machine_id e.source
              (codes "sensor_stream") (codes "ok") none none none e.sent_at_utc_ms
              (some (build_catalog_extra_json (length message.sensors))))
            (for_each (upsert_catalog_sensor message) message.sensors)))

  unfoldable pub insert_sample_batch : SampleBatchMessage D → Action D
  insert_sample_batch message =
      let e = message.envelope in
      transaction fails (
        both (upsert_machine e.machine_id none none message.sample_time_utc_ms none) (
          both
            (upsert_collector (collector_id e.machine_id e.source) e.machine_id e.source
              (codes "sensor_stream") (codes "ok") none (some message.sample_time_utc_ms) none
              e.sent_at_utc_ms (some (build_sample_extra_json (length message.samples))))
            (for_each (insert_sensor_sample message) message.samples)))

  unfoldable pub upsert_heartbeat : HeartbeatMessage → Action D
  upsert_heartbeat message =
      let e = message.envelope in
      transaction fails (
        both (upsert_machine e.machine_id none none e.sent_at_utc_ms none) (
          upsert_collector (collector_id e.machine_id e.source) e.machine_id e.source
            (codes "bridge") message.status none none none e.sent_at_utc_ms
            (some (build_heartbeat_extra_json message))))

  unfoldable pub insert_gpu_sample : GpuSample D → Action D
  insert_gpu_sample sample =
      both (open_if_needed fails) (run_statement fails insert_gpu_samples (gpu_bindings sample))

  unfoldable pub insert_ollama_runtime_sample : OllamaSample → Action D
  insert_ollama_runtime_sample sample =
      both (open_if_needed fails)
        (run_statement fails insert_ollama_runtime_samples (ollama_bindings sample))

  unfoldable pub upsert_collector_health_direct :
      Text → Text → Text → Text → ℤ → Option Text → Action D
  upsert_collector_health_direct machine_id source collector_type status now_utc_ms last_error =
      both (open_if_needed fails) (
        upsert_collector (collector_id machine_id source) machine_id source collector_type status
          none (some now_utc_ms) last_error now_utc_ms none)
