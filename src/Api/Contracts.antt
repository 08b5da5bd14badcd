-- ===== src/Api/Contracts.antt =====
-- The shapes that a client of apps/host_agent/src/api/http_server.cpp relies on, one for each document.
pub mod Kept
use capacity_agent.Base.{Option, none, some, List, [], ◌∷◌, Text, codes}
use capacity_agent.Store.Rows.{MachineRow, GpuSnapshotRow}
use capacity_agent.Api.Trees.{
  Shape, text_shape, number_shape, flag_shape, optional_text, optional_number, list_of, record_of,
  dictionary, FieldShapes, no_more, member,
}

abbrev pub members : List (Text × Shape) → FieldShapes
members [] = no_more
members ((k, s) ∷ rest) = member k s (members rest)

abbrev pub health_shape : Shape
health_shape = record_of (
    members (
      (codes "status", text_shape)
      ∷ (codes "last_hello_utc_ms", optional_number)
      ∷ (codes "last_sample_utc_ms", optional_number)
      ∷ (codes "last_error", optional_text)
      ∷ (codes "updated_utc_ms", number_shape)
      ∷ []))

-- The members on the machine stand only where it is known.
abbrev pub machine_members : Option MachineRow → List (Text × Shape)
machine_members none = []
machine_members (some machine) =
    (codes "hostname", text_shape)
    ∷ (codes "display_name", text_shape)
    ∷ (codes "first_seen_utc_ms", number_shape)
    ∷ (codes "last_seen_utc_ms", number_shape)
    ∷ []

abbrev pub status_shape : Option MachineRow → Shape
status_shape machine = record_of (
    members (
      (codes "machine_id", text_shape)
      ∷ (codes "generated_utc_ms", number_shape)
      ∷ (codes "api_version", text_shape)
      ∷ (codes "collectors", dictionary health_shape)
      ∷ machine_members machine))

abbrev pub catalog_shape : Shape
catalog_shape = record_of (
    members (
      (codes "machine_id", text_shape)
      ∷ (codes "sensor_count", number_shape)
      ∷ (
        codes "sensors",
        list_of (
            record_of (
              members (
                (codes "sensor_uid", text_shape)
                ∷ (codes "hardware_name", text_shape)
                ∷ (codes "hardware_type", text_shape)
                ∷ (codes "sensor_name", text_shape)
                ∷ (codes "sensor_type", text_shape)
                ∷ (codes "unit", text_shape)
                ∷ (codes "sensor_index", number_shape)
                ∷ (codes "is_default_hidden", flag_shape)
                ∷ []))),
      )
      ∷ []))

abbrev pub history_shape : Shape
history_shape = record_of (
    members (
      (codes "sensor_uid", text_shape)
      ∷ (codes "from_utc_ms", number_shape)
      ∷ (codes "to_utc_ms", number_shape)
      ∷ (codes "count", number_shape)
      ∷ (
        codes "samples",
        list_of (
            record_of (
              members (
                (codes "ts_utc_ms", number_shape)
                ∷ (codes "value", number_shape)
                ∷ (codes "min", optional_number)
                ∷ (codes "max", optional_number)
                ∷ (codes "quality", text_shape)
                ∷ []))),
      )
      ∷ []))

abbrev pub system_shape : Shape
system_shape = record_of (
    members (
      (codes "cpu_package_c", optional_number)
      ∷ (codes "cpu_total_load_pct", optional_number)
      ∷ (codes "memory_used_bytes", optional_number)
      ∷ (codes "memory_total_bytes", optional_number)
      ∷ []))

abbrev pub gpu_shape : Shape
gpu_shape = record_of (
    members (
      (codes "gpu_index", number_shape)
      ∷ (codes "gpu_name", text_shape)
      ∷ (codes "core_c", optional_number)
      ∷ (codes "hotspot_c", optional_number)
      ∷ (codes "util_gpu_pct", optional_number)
      ∷ (codes "vram_used_bytes", optional_number)
      ∷ (codes "vram_total_bytes", optional_number)
      ∷ (codes "power_w", optional_number)
      ∷ []))

abbrev pub ollama_shape : Shape
ollama_shape = record_of (
    members (
      (codes "reachable", flag_shape)
      ∷ (codes "loaded_model_count", number_shape)
      ∷ (codes "resident_vram_bytes", optional_number)
      ∷ []))

abbrev pub age_shape : Shape
age_shape = record_of (members ((codes "status", text_shape) ∷ (codes "age_ms", number_shape) ∷ []))

abbrev pub snapshot_shape : Shape
snapshot_shape = record_of (
    members (
      (codes "machine_id", text_shape)
      ∷ (codes "generated_utc_ms", number_shape)
      ∷ (codes "system", system_shape)
      ∷ (codes "gpus", list_of gpu_shape)
      ∷ (codes "ollama", ollama_shape)
      ∷ (codes "collectors", dictionary age_shape)
      ∷ []))

-- The figures stand only where there is a GPU.
abbrev pub summary_members : {D : Type 0} → List (GpuSnapshotRow D) → List (Text × Shape)
summary_members [] = []
summary_members (gpu ∷ gpus) =
    (codes "max_util_pct", number_shape)
    ∷ (codes "max_temperature_c", number_shape)
    ∷ (codes "total_power_w", number_shape)
    ∷ (codes "vram_free_bytes", number_shape)
    ∷ (codes "vram_total_bytes", number_shape)
    ∷ []

abbrev pub summary_shape : {D : Type 0} → List (GpuSnapshotRow D) → Shape
summary_shape gpus = record_of (members ((codes "gpu_count", number_shape) ∷ summary_members gpus))

abbrev pub readiness_shape : {D : Type 0} → List (GpuSnapshotRow D) → Shape
readiness_shape gpus = record_of (
    members (
      (codes "machine_id", text_shape)
      ∷ (codes "verdict", text_shape)
      ∷ (codes "generated_utc_ms", number_shape)
      ∷ (codes "gpu_summary", summary_shape gpus)
      ∷ (codes "ollama", ollama_shape)
      ∷ (codes "reasons", list_of text_shape)
      ∷ []))
