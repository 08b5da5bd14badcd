-- ===== src/Store/Bindings.antt =====
-- The parameters that the functions of apps/host_agent/src/storage/sqlite_store.cpp bind for each INSERT.
use capacity_agent.Base.{Bool, Option, none, some, [], ◌∷◌, Text, if◌then◌else◌}
use capacity_agent.Base.Int.{ℤ, pos}
use capacity_agent.Bridge.Messages.{
  MessageEnvelope, CatalogSensor, SensorSample, SampleBatchMessage,
}
use capacity_agent.Store.Tables.{Value, null, integer, real, text, Params}

abbrev pub nullable_text : {D : Type 0} → Option Text → Value D
nullable_text none = null
nullable_text (some t) = text t

abbrev pub nullable_int64 : {D : Type 0} → Option ℤ → Value D
nullable_int64 none = null
nullable_int64 (some n) = integer n

abbrev pub nullable_double : {D : Type 0} → Option D → Value D
nullable_double none = null
nullable_double (some d) = real d

-- `text.empty() ? nullopt : text`
abbrev pub non_empty : Text → Option Text
non_empty [] = none
non_empty (c ∷ t) = some (c ∷ t)

abbrev pub of_bool : Bool → ℤ
of_bool b = if b then pos 1 else pos 0

module _ {D : Type 0} where
  unfoldable pub machine_bindings : Text → Option Text → Option Text → ℤ → Option Text → Params D
  machine_bindings machine_id hostname display_name seen_utc_ms extra_json =
      (1, text machine_id)
      ∷ (2, nullable_text hostname)
      ∷ (3, nullable_text display_name)
      ∷ (4, integer seen_utc_ms)
      ∷ (5, integer seen_utc_ms)
      ∷ (6, nullable_text extra_json)
      ∷ []

  unfoldable pub collector_bindings :
      Text
      → Text
      → Text
      → Text
      → Text
      → Option ℤ
      → Option ℤ
      → Option Text
      → ℤ
      → Option Text
      → Params D
  collector_bindings id machine_id source collector_type status last_hello last_sample last_error
        updated extra_json =
      (1, text id)
      ∷ (2, text machine_id)
      ∷ (3, text source)
      ∷ (4, text collector_type)
      ∷ (5, text status)
      ∷ (6, nullable_int64 last_hello)
      ∷ (7, nullable_int64 last_sample)
      ∷ (8, nullable_text last_error)
      ∷ (9, integer updated)
      ∷ (10, nullable_text extra_json)
      ∷ []

  unfoldable pub sensor_bindings : MessageEnvelope → CatalogSensor → Params D
  sensor_bindings envelope sensor =
      (1, text sensor.sensor_uid)
      ∷ (2, text envelope.machine_id)
      ∷ (3, text envelope.source)
      ∷ (4, text sensor.hardware_uid)
      ∷ (5, text sensor.hardware_path)
      ∷ (6, text sensor.hardware_name)
      ∷ (7, text sensor.hardware_type)
      ∷ (8, text sensor.sensor_path)
      ∷ (9, text sensor.sensor_name)
      ∷ (10, text sensor.sensor_type)
      ∷ (11, integer sensor.sensor_index)
      ∷ (12, text sensor.unit)
      ∷ (13, integer (of_bool sensor.is_default_hidden))
      ∷ (14, integer envelope.sent_at_utc_ms)
      ∷ (15, integer envelope.sent_at_utc_ms)
      ∷ (16, nullable_text (non_empty sensor.properties_json))
      ∷ []

  unfoldable pub sample_bindings : SampleBatchMessage D → SensorSample D → Params D
  sample_bindings message sample =
      (1, text sample.sensor_uid)
      ∷ (2, integer message.sample_time_utc_ms)
      ∷ (3, real sample.value)
      ∷ (4, nullable_double sample.min_value)
      ∷ (5, nullable_double sample.max_value)
      ∷ (6, text sample.quality)
      ∷ (7, text message.envelope.source)
      ∷ (8, text sample.sensor_uid)
      ∷ []

-- The arguments of `InsertGpuSample`.
pub record GpuSample (D : Type 0) : Type 0 where
  pub machine_id : Text
  pub gpu_uid : Text
  pub gpu_index : ℤ
  pub ts_utc_ms : ℤ
  pub gpu_name : Option Text
  pub backend : Text
  pub core_c : Option D
  pub hotspot_c : Option D
  pub mem_junction_c : Option D
  pub util_gpu_pct : Option D
  pub util_mem_pct : Option D
  pub power_w : Option D
  pub vram_used_bytes : Option ℤ
  pub vram_total_bytes : Option ℤ
  pub clock_graphics_mhz : Option ℤ
  pub clock_memory_mhz : Option ℤ
  pub fan0_rpm : Option ℤ
  pub fan0_pct : Option D

-- The arguments of `InsertOllamaRuntimeSample`.
pub record OllamaSample : Type 0 where
  pub machine_id : Text
  pub ts_utc_ms : ℤ
  pub base_url : Text
  pub active_requests : Option ℤ
  pub queued_requests : Option ℤ
  pub loaded_models : Option ℤ
  pub resident_vram_bytes : Option ℤ
  pub resident_ram_bytes : Option ℤ

unfoldable pub gpu_bindings : {D : Type 0} → GpuSample D → Params D
gpu_bindings g =
    (1, text g.machine_id)
    ∷ (2, text g.gpu_uid)
    ∷ (3, integer g.gpu_index)
    ∷ (4, integer g.ts_utc_ms)
    ∷ (5, nullable_text g.gpu_name)
    ∷ (6, text g.backend)
    ∷ (7, nullable_double g.core_c)
    ∷ (8, nullable_double g.hotspot_c)
    ∷ (9, nullable_double g.mem_junction_c)
    ∷ (10, nullable_double g.util_gpu_pct)
    ∷ (11, nullable_double g.util_mem_pct)
    ∷ (12, nullable_double g.power_w)
    ∷ (13, nullable_int64 g.vram_used_bytes)
    ∷ (14, nullable_int64 g.vram_total_bytes)
    ∷ (15, nullable_int64 g.clock_graphics_mhz)
    ∷ (16, nullable_int64 g.clock_memory_mhz)
    ∷ (17, nullable_int64 g.fan0_rpm)
    ∷ (18, nullable_double g.fan0_pct)
    ∷ []

unfoldable pub ollama_bindings : {D : Type 0} → OllamaSample → Params D
ollama_bindings o =
    (1, text o.machine_id)
    ∷ (2, integer o.ts_utc_ms)
    ∷ (3, text o.base_url)
    ∷ (4, nullable_int64 o.active_requests)
    ∷ (5, nullable_int64 o.queued_requests)
    ∷ (6, nullable_int64 o.loaded_models)
    ∷ (7, nullable_int64 o.resident_vram_bytes)
    ∷ (8, nullable_int64 o.resident_ram_bytes)
    ∷ []
