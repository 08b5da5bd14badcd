-- ===== src/Api/Contracts/Kept.antt =====
-- Each document of apps/host_agent/src/api/http_server.cpp has its shape.
use capacity_agent.Base.{ℕ, Option, none, some, List, [], ◌∷◌, Text}
use capacity_agent.Base.Int.{ℤ}
use capacity_agent.Base.Double.{Doubles}
use capacity_agent.Store.Rows.{
  CollectorHealthRow, MachineRow, SensorCatalogRow, SensorSampleRow, GpuSnapshotRow,
}
use capacity_agent.Store.Queries.{OllamaSnapshot}
use capacity_agent.Store.Snapshot.{SystemMetrics, LatestSnapshot}
use capacity_agent.Api.{Readiness, gpu_summary}
use capacity_agent.Api.Json.{CJsonWriter}
use capacity_agent.Api.Documents.{
  health_entry, add_health, status_document, catalog_item, catalog_document, history_item,
  history_document,
}
use capacity_agent.Api.Snapshots.{
  system_object, gpu_object, ollama_object, add_ages, snapshot_document, summary_object,
  readiness_document,
}
use capacity_agent.Api.Trees.{WriterLaws, text_shape, dictionary, HasShape}
use capacity_agent.Api.Shapes.{
  Shaped, shaped, new_record, new_dictionary, new_list, with_string, with_number, with_bool,
  with_optional_double, with_optional_int64, with_optional_string, with_item, with_entry,
  add_items-Shaped,
}
use capacity_agent.Api.Contracts.{
  health_shape, status_shape, catalog_shape, history_shape, system_shape, gpu_shape, ollama_shape,
  age_shape, snapshot_shape, summary_shape, readiness_shape,
}

module _ (d : Doubles) (json : CJsonWriter d.Double) (laws : WriterLaws json)
    (machine_id : Text) where
  health-Shaped :
      (c : CollectorHealthRow) → Shaped laws health_shape (health_entry d json machine_id c)
  health-Shaped c = with_number d json laws _ _ (
      with_optional_string d json laws _ c.last_error (
        with_optional_int64 d json laws _ c.last_sample_utc_ms (
          with_optional_int64 d json laws _ c.last_hello_utc_ms
            (with_string d json laws _ c.status (new_record d json laws)))))

  add_health-Shaped :
      (collectors : List CollectorHealthRow) (o : json.Node)
      → Shaped laws (dictionary health_shape) o
      → Shaped laws (dictionary health_shape) (add_health d json machine_id collectors o)
  unfolding add_health
  add_health-Shaped [] o h = h
  add_health-Shaped (c ∷ collectors) o h =
      add_health-Shaped collectors _
        (with_entry d json laws c.source health_shape o _ (health-Shaped c) h)

  status-Shaped :
      (now : ℤ) (collectors : List CollectorHealthRow) (machine : Option MachineRow)
      → Shaped laws
          (status_shape machine)
          (status_document d json machine_id now collectors machine)
  unfolding status_document
  status-Shaped now collectors none =
      with_item d json laws _ (dictionary health_shape) _
        (add_health-Shaped collectors _ (new_dictionary d json laws health_shape))
        (with_string d json laws _ _ (
          with_number d json laws _ _
            (with_string d json laws _ machine_id (new_record d json laws))))
  status-Shaped now collectors (some m) = with_number d json laws _ _ (
      with_number d json laws _ _ (
        with_string d json laws _ m.display_name (
          with_string d json laws _ m.hostname (
            with_item d json laws _ (dictionary health_shape) _
              (add_health-Shaped collectors _ (new_dictionary d json laws health_shape))
              (with_string d json laws _ _ (
                with_number d json laws _ _
                  (with_string d json laws _ machine_id (new_record d json laws))))))))

  catalog-Shaped :
      (sensors : List SensorCatalogRow)
      → Shaped laws catalog_shape (catalog_document d json machine_id sensors)
  unfolding catalog_document
  catalog-Shaped sensors =
      with_item d json laws _ _ _
        (add_items-Shaped d json laws (catalog_item d json machine_id) _
          (λ s. with_bool d json laws _ s.is_default_hidden (
            with_number d json laws _ _ (
              with_string d json laws _ s.unit (
                with_string d json laws _ s.sensor_type (
                  with_string d json laws _ s.sensor_name (
                    with_string d json laws _ s.hardware_type (
                      with_string d json laws _ s.hardware_name
                        (with_string d json laws _ s.sensor_uid (new_record d json laws)))))))))
          sensors _ (new_list d json laws _))
        (with_number d json laws _ _
          (with_string d json laws _ machine_id (new_record d json laws)))

  history-Shaped :
      (sensor_uid : Text) (from_ms to_ms : ℤ) (samples : List (SensorSampleRow d.Double))
      → Shaped laws history_shape
          (history_document d json machine_id sensor_uid from_ms to_ms samples)
  unfolding history_document
  history-Shaped sensor_uid from_ms to_ms samples =
      with_item d json laws _ _ _
        (add_items-Shaped d json laws (history_item d json machine_id) _
          (λ s. with_string d json laws _ s.quality (
            with_optional_double d json laws _ s.max_value (
              with_optional_double d json laws _ s.min_value (
                with_number d json laws _ s.value
                  (with_number d json laws _ _ (new_record d json laws))))))
          samples _ (new_list d json laws _))
        (with_number d json laws _ _ (
          with_number d json laws _ _ (
            with_number d json laws _ _
              (with_string d json laws _ sensor_uid (new_record d json laws)))))

  system-Shaped :
      (m : SystemMetrics d) → Shaped laws system_shape (system_object d json machine_id m)
  system-Shaped m = with_optional_int64 d json laws _ m.memory_total_bytes (
      with_optional_int64 d json laws _ m.memory_used_bytes (
        with_optional_double d json laws _ m.cpu_total_load_pct
          (with_optional_double d json laws _ m.cpu_package_c (new_record d json laws))))

  gpu-Shaped :
      (g : GpuSnapshotRow d.Double) → Shaped laws gpu_shape (gpu_object d json machine_id g)
  gpu-Shaped g = with_optional_double d json laws _ g.power_w (
      with_optional_int64 d json laws _ g.vram_total_bytes (
        with_optional_int64 d json laws _ g.vram_used_bytes (
          with_optional_double d json laws _ g.util_gpu_pct (
            with_optional_double d json laws _ g.hotspot_c (
              with_optional_double d json laws _ g.core_c (
                with_string d json laws _ g.gpu_name
                  (with_number d json laws _ _ (new_record d json laws))))))))

  ollama-Shaped :
      (o : OllamaSnapshot) → Shaped laws ollama_shape (ollama_object d json machine_id o)
  ollama-Shaped o =
      with_optional_int64 d json laws _ o.resident_vram_bytes
        (with_number d json laws _ _ (with_bool d json laws _ o.reachable (new_record d json laws)))

  add_ages-Shaped :
      (clock : ℕ → ℤ) (collectors : List CollectorHealthRow) (k : ℕ) (o : json.Node)
      → Shaped laws (dictionary age_shape) o
      → Shaped laws (dictionary age_shape) (add_ages d json machine_id clock k collectors o)
  unfolding add_ages
  add_ages-Shaped clock [] k o h = h
  add_ages-Shaped clock (c ∷ collectors) k o h = add_ages-Shaped clock collectors _ _ (
      with_entry d json laws c.source age_shape o _
        (with_number d json laws _ _ (with_string d json laws _ c.status (new_record d json laws)))
        h)

  snapshot-Shaped :
      (clock : ℕ → ℤ) (snapshot : LatestSnapshot d) (collectors : List CollectorHealthRow)
      → Shaped laws snapshot_shape (snapshot_document d json machine_id clock snapshot collectors)
  unfolding snapshot_document
  snapshot-Shaped clock snapshot collectors =
      with_item d json laws _ (dictionary age_shape) _
        (add_ages-Shaped clock collectors 1 _ (new_dictionary d json laws age_shape))
        (with_item d json laws _ _ _ (ollama-Shaped snapshot.ollama) (
          with_item d json laws _ _ _
            (add_items-Shaped d json laws (gpu_object d json machine_id) _ gpu-Shaped snapshot.gpus
              _ (new_list d json laws _))
            (with_item d json laws _ _ _ (system-Shaped snapshot.system) (
              with_number d json laws _ _
                (with_string d json laws _ machine_id (new_record d json laws))))))

  summary-Shaped :
      (gpus : List (GpuSnapshotRow d.Double))
      → Shaped laws (summary_shape gpus) (summary_object d json machine_id gpus)
  summary-Shaped [] = with_number d json laws _ _ (new_record d json laws)
  summary-Shaped (gpu ∷ gpus) =
      let s = gpu_summary d (gpu ∷ gpus) in
      with_number d json laws _ _ (
        with_number d json laws _ _ (
          with_number d json laws _ s.total_power_w (
            with_number d json laws _ s.max_temperature_c (
              with_number d json laws _ s.max_util_pct
                (with_number d json laws _ _ (new_record d json laws))))))

  reason-Shaped : (t : Text) → Shaped laws text_shape (json.create_string t)
  unfolding HasShape
  reason-Shaped t = shaped d json laws (laws.tree-create_string t) tt

  readiness-Shaped :
      (now : ℤ) (r : Readiness) (snapshot : LatestSnapshot d)
      → Shaped laws
          (readiness_shape snapshot.gpus)
          (readiness_document d json machine_id now r snapshot)
  unfolding readiness_document
  readiness-Shaped now r snapshot =
      with_item d json laws _ _ _
        (add_items-Shaped d json laws json.create_string _ reason-Shaped r.reasons _
          (new_list d json laws _))
        (with_item d json laws _ _ _ (ollama-Shaped snapshot.ollama) (
          with_item d json laws _ _ _ (summary-Shaped snapshot.gpus) (
            with_number d json laws _ _ (
              with_string d json laws _ _
                (with_string d json laws _ machine_id (new_record d json laws))))))

  -- If the functions of cJSON make the trees that their names say, then each of the five documents of the
  -- API has its shape, whatever the tables hold: its members, in their order and no others, and their
  -- types. The members on the machine in /v1/status stand exactly where the machine is known, those on
  -- the GPUs in /v1/readiness exactly where there is a GPU, and null stands only where the shape allows it.
  pub documents-Shaped :
      (clock : ℕ → ℤ) (collectors : List CollectorHealthRow) (machine : Option MachineRow)
      (sensors : List SensorCatalogRow) (sensor_uid : Text) (from_ms to_ms : ℤ)
      (samples : List (SensorSampleRow d.Double)) (snapshot : LatestSnapshot d) (r : Readiness)
      → Shaped laws
          (status_shape machine)
          (status_document d json machine_id (clock 0) collectors machine)
        × Shaped laws catalog_shape (catalog_document d json machine_id sensors)
        × Shaped laws history_shape
            (history_document d json machine_id sensor_uid from_ms to_ms samples)
        × Shaped laws snapshot_shape (snapshot_document d json machine_id clock snapshot collectors)
        × Shaped laws
            (readiness_shape snapshot.gpus)
            (readiness_document d json machine_id (clock 2) r snapshot)
  documents-Shaped clock collectors machine sensors sensor_uid from_ms to_ms samples snapshot r = (
    status-Shaped (clock 0) collectors machine,
    catalog-Shaped sensors,
    history-Shaped sensor_uid from_ms to_ms samples,
    snapshot-Shaped clock snapshot collectors,
    readiness-Shaped (clock 2) r snapshot,
  )
