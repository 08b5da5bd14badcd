-- ===== src/Api/Snapshots.antt =====
-- The answers of apps/host_agent/src/api/http_server.cpp as documents: /v1/snapshot and /v1/readiness.
-- `clock` gives the readings of `NowUtcMs`: in /v1/snapshot in their order; in /v1/readiness for the GPU data, for
-- the data of the bridge, and for the answer.
use capacity_agent.Base.{ℕ, suc, Option, none, some, List, [], ◌∷◌, map, Text, codes}
use capacity_agent.Base.Int.{ℤ, pos, negsuc, ◌-ℤ◌}
use capacity_agent.Base.Double.{Doubles}
use capacity_agent.Store.Tables.{Db}
use capacity_agent.Store.Rows.{CollectorHealthRow, GpuSnapshotRow, collector_health_row}
use capacity_agent.Store.Queries.{OllamaSnapshot, query_collector_health}
use capacity_agent.Store.Snapshot.{SystemMetrics, LatestSnapshot, query_latest_snapshot}
use capacity_agent.Api.{Readiness, verdict_text, readiness, gpu_summary, param_or}
use capacity_agent.Api.Json.{
  CJsonWriter, print_json, add_string, add_int, add_int64, add_double, add_bool,
  add_optional_double, add_optional_int64, add_items,
}
use capacity_agent.Api.Documents.{HttpAnswer, sent, thrown}

module _ (d : Doubles) (json : CJsonWriter d.Double) (machine_id : Text) where
  abbrev pub system_object : SystemMetrics d → json.Node
  system_object m =
      let obj =
        add_optional_double d json json.create_object (codes "cpu_package_c") m.cpu_package_c in
      let obj = add_optional_double d json obj (codes "cpu_total_load_pct") m.cpu_total_load_pct in
      let obj = add_optional_int64 d json obj (codes "memory_used_bytes") m.memory_used_bytes in
      add_optional_int64 d json obj (codes "memory_total_bytes") m.memory_total_bytes

  abbrev pub gpu_object : GpuSnapshotRow d.Double → json.Node
  gpu_object gpu =
      let obj = add_int d json json.create_object (codes "gpu_index") gpu.gpu_index in
      let obj = add_string d json obj (codes "gpu_name") gpu.gpu_name in
      let obj = add_optional_double d json obj (codes "core_c") gpu.core_c in
      let obj = add_optional_double d json obj (codes "hotspot_c") gpu.hotspot_c in
      let obj = add_optional_double d json obj (codes "util_gpu_pct") gpu.util_gpu_pct in
      let obj = add_optional_int64 d json obj (codes "vram_used_bytes") gpu.vram_used_bytes in
      let obj = add_optional_int64 d json obj (codes "vram_total_bytes") gpu.vram_total_bytes in
      add_optional_double d json obj (codes "power_w") gpu.power_w

  abbrev pub ollama_object : OllamaSnapshot → json.Node
  ollama_object o =
      let obj = add_bool d json json.create_object (codes "reachable") o.reachable in
      let obj = add_int d json obj (codes "loaded_model_count") o.loaded_model_count in
      add_optional_int64 d json obj (codes "resident_vram_bytes") o.resident_vram_bytes

  -- An age, and how many readings of the clock have been taken then.
  abbrev pub age_of : (ℕ → ℤ) → ℕ → Option ℤ → ℤ × ℕ
  age_of clock k none = (negsuc 0, k)
  age_of clock k (some last_sample) = (clock k -ℤ last_sample, suc k)

  abbrev pub age_entry : CollectorHealthRow → ℤ → json.Node
  age_entry c age_ms =
      let entry = add_string d json json.create_object (codes "status") c.status in
      add_int64 d json entry (codes "age_ms") age_ms

  unfoldable pub add_ages : (ℕ → ℤ) → ℕ → List CollectorHealthRow → json.Node → json.Node
  add_ages clock k [] obj = obj
  add_ages clock k (c ∷ collectors) obj =
      let (age_ms, k') = age_of clock k c.last_sample_utc_ms in
      add_ages clock k' collectors (json.add_item_to_object obj c.source (age_entry c age_ms))

  unfoldable pub snapshot_document :
      (ℕ → ℤ) → LatestSnapshot d → List CollectorHealthRow → json.Node
  unfolding add_items add_ages
  snapshot_document clock snapshot collectors =
      let root = add_string d json json.create_object (codes "machine_id") machine_id in
      let root = add_int64 d json root (codes "generated_utc_ms") (clock 0) in
      let root = json.add_item_to_object root (codes "system") (system_object snapshot.system) in
      let root =
        json.add_item_to_object root (codes "gpus")
          (add_items d json gpu_object snapshot.gpus json.create_array) in
      let root = json.add_item_to_object root (codes "ollama") (ollama_object snapshot.ollama) in
      json.add_item_to_object root (codes "collectors")
        (add_ages clock 1 collectors json.create_object)

  unfoldable pub get_snapshot : (ℕ → ℤ) → Db d.Double → HttpAnswer
  unfolding snapshot_document print_json query_latest_snapshot query_collector_health
      collector_health_row
  get_snapshot clock db = sent (pos 200) (
      print_json d json (
        snapshot_document clock (query_latest_snapshot d machine_id db)
          (map collector_health_row (query_collector_health machine_id db))))

  -- /v1/readiness
  abbrev pub summary_object : List (GpuSnapshotRow d.Double) → json.Node
  summary_object [] = add_int d json json.create_object (codes "gpu_count") (pos 0)
  summary_object (gpu ∷ gpus) =
      let s = gpu_summary d (gpu ∷ gpus) in
      let obj = add_int d json json.create_object (codes "gpu_count") (pos s.gpu_count) in
      let obj = add_double d json obj (codes "max_util_pct") s.max_util_pct in
      let obj = add_double d json obj (codes "max_temperature_c") s.max_temperature_c in
      let obj = add_double d json obj (codes "total_power_w") s.total_power_w in
      let obj = add_int64 d json obj (codes "vram_free_bytes") s.vram_free_bytes in
      add_int64 d json obj (codes "vram_total_bytes") s.vram_total_bytes

  unfoldable pub readiness_document : ℤ → Readiness → LatestSnapshot d → json.Node
  unfolding add_items gpu_summary verdict_text
  readiness_document now r snapshot =
      let root = add_string d json json.create_object (codes "machine_id") machine_id in
      let root = add_string d json root (codes "verdict") (verdict_text r.verdict) in
      let root = add_int64 d json root (codes "generated_utc_ms") now in
      let root =
        json.add_item_to_object root (codes "gpu_summary") (summary_object snapshot.gpus) in
      let root = json.add_item_to_object root (codes "ollama") (ollama_object snapshot.ollama) in
      json.add_item_to_object root (codes "reasons")
        (add_items d json json.create_string r.reasons json.create_array)

  abbrev pub readiness_at : (ℕ → ℤ) → Option ℤ → Db d.Double → HttpAnswer
  readiness_at clock none db = thrown
  readiness_at clock (some required) db =
      let snapshot = query_latest_snapshot d machine_id db in
      let collectors = map collector_health_row (query_collector_health machine_id db) in
      sent (pos 200) (
        print_json d json (
          readiness_document (clock 2)
            (readiness d (clock 0) (clock 1) required snapshot.gpus collectors) snapshot))

  -- The parameter `required_vram_bytes` is a text, where it is given.
  unfoldable pub get_readiness :
      (Text → Option ℤ) → Option Text → (ℕ → ℤ) → Db d.Double → HttpAnswer
  unfolding readiness_document readiness print_json query_latest_snapshot query_collector_health
      collector_health_row
  get_readiness stoll required clock db = readiness_at clock (param_or stoll (pos 0) required) db
