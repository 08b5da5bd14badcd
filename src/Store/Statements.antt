-- ===== src/Store/Statements.antt =====
-- The effect of each INSERT statement of apps/host_agent/src/storage/sqlite_store.cpp on the tables.
use capacity_agent.Base.{Bool, ◌&&◌, Text, text_eq, if◌then◌else◌}
use capacity_agent.Base.Options.{is_some}
use capacity_agent.Store.Tables.{
  Params, MachineRow, CollectorRow, SensorRow, SampleRow, GpuRow, OllamaRow, Db, param, as_text,
  as_opt_text, as_int, as_opt_int, as_opt_real, coalesce, upsert, find_row, replace, int_eq, later,
  later_opt,
}

-- The statements, by their tables.
pub data Sql : Type 0 where
  upsert_machine_catalog upsert_collector_health upsert_sensor_catalog insert_sensor_samples : Sql
  insert_gpu_samples insert_ollama_runtime_samples : Sql

unfoldable pub merge_machine : MachineRow → MachineRow → MachineRow
unfolding later
merge_machine old new = record old {
  hostname = coalesce new.hostname old.hostname;
  display_name = coalesce new.display_name old.display_name;
  last_seen_utc_ms = later new.last_seen_utc_ms old.last_seen_utc_ms;
  extra_json = coalesce new.extra_json old.extra_json;
}

unfoldable pub merge_collector : CollectorRow → CollectorRow → CollectorRow
unfolding later_opt
merge_collector old new = record new {
  collector_id = old.collector_id;
  last_hello_utc_ms = later_opt new.last_hello_utc_ms old.last_hello_utc_ms;
  last_sample_utc_ms = later_opt new.last_sample_utc_ms old.last_sample_utc_ms;
  extra_json = coalesce new.extra_json old.extra_json;
}

unfoldable pub merge_sensor : SensorRow → SensorRow → SensorRow
merge_sensor old new = record new {
  sensor_uid = old.sensor_uid;
  first_seen_utc_ms = old.first_seen_utc_ms;
  properties_json = coalesce new.properties_json old.properties_json;
}

abbrev pub machine_key : MachineRow → Text
machine_key r = r.machine_id

abbrev pub collector_key : CollectorRow → Text
collector_key r = r.collector_id

abbrev pub sensor_key : SensorRow → Text
sensor_key r = r.sensor_uid

unfoldable pub same_ollama : OllamaRow → OllamaRow → Bool
same_ollama a b = text_eq a.machine_id b.machine_id && int_eq a.ts_utc_ms b.ts_utc_ms

module _ {D : Type 0} where
  unfoldable pub machine_row : Params D → MachineRow
  machine_row ps = record {
    machine_id = as_text (param 1 ps);
    hostname = as_opt_text (param 2 ps);
    display_name = as_opt_text (param 3 ps);
    first_seen_utc_ms = as_int (param 4 ps);
    last_seen_utc_ms = as_int (param 5 ps);
    extra_json = as_opt_text (param 6 ps);
  }

  unfoldable pub collector_row : Params D → CollectorRow
  collector_row ps = record {
    collector_id = as_text (param 1 ps);
    machine_id = as_text (param 2 ps);
    source = as_text (param 3 ps);
    collector_type = as_text (param 4 ps);
    status = as_text (param 5 ps);
    last_hello_utc_ms = as_opt_int (param 6 ps);
    last_sample_utc_ms = as_opt_int (param 7 ps);
    last_error = as_opt_text (param 8 ps);
    updated_utc_ms = as_int (param 9 ps);
    extra_json = as_opt_text (param 10 ps);
  }

  unfoldable pub sensor_row : Params D → SensorRow
  sensor_row ps = record {
    sensor_uid = as_text (param 1 ps);
    machine_id = as_text (param 2 ps);
    source = as_text (param 3 ps);
    hardware_uid = as_text (param 4 ps);
    hardware_path = as_text (param 5 ps);
    hardware_name = as_text (param 6 ps);
    hardware_type = as_text (param 7 ps);
    sensor_path = as_text (param 8 ps);
    sensor_name = as_text (param 9 ps);
    sensor_type = as_text (param 10 ps);
    sensor_index = as_int (param 11 ps);
    unit = as_text (param 12 ps);
    is_default_hidden = as_int (param 13 ps);
    first_seen_utc_ms = as_int (param 14 ps);
    last_seen_utc_ms = as_int (param 15 ps);
    properties_json = as_opt_text (param 16 ps);
  }

  unfoldable pub sample_row : Params D → SampleRow D
  sample_row ps = record {
    sensor_uid = as_text (param 1 ps);
    ts_utc_ms = as_int (param 2 ps);
    value = as_opt_real (param 3 ps);
    min_value = as_opt_real (param 4 ps);
    max_value = as_opt_real (param 5 ps);
    quality = as_text (param 6 ps);
    source = as_text (param 7 ps);
  }

  unfoldable pub gpu_row : Params D → GpuRow D
  gpu_row ps = record {
    machine_id = as_text (param 1 ps);
    gpu_uid = as_text (param 2 ps);
    gpu_index = as_int (param 3 ps);
    ts_utc_ms = as_int (param 4 ps);
    gpu_name = as_opt_text (param 5 ps);
    backend = as_text (param 6 ps);
    core_c = as_opt_real (param 7 ps);
    hotspot_c = as_opt_real (param 8 ps);
    mem_junction_c = as_opt_real (param 9 ps);
    util_gpu_pct = as_opt_real (param 10 ps);
    util_mem_pct = as_opt_real (param 11 ps);
    power_w = as_opt_real (param 12 ps);
    vram_used_bytes = as_opt_int (param 13 ps);
    vram_total_bytes = as_opt_int (param 14 ps);
    clock_graphics_mhz = as_opt_int (param 15 ps);
    clock_memory_mhz = as_opt_int (param 16 ps);
    fan0_rpm = as_opt_int (param 17 ps);
    fan0_pct = as_opt_real (param 18 ps);
  }

  unfoldable pub ollama_row : Params D → OllamaRow
  ollama_row ps = record {
    machine_id = as_text (param 1 ps);
    ts_utc_ms = as_int (param 2 ps);
    base_url = as_text (param 3 ps);
    active_request_count = as_opt_int (param 4 ps);
    queued_request_count = as_opt_int (param 5 ps);
    loaded_model_count = as_opt_int (param 6 ps);
    resident_vram_bytes = as_opt_int (param 7 ps);
    resident_ram_bytes = as_opt_int (param 8 ps);
  }

  -- The primary keys of the tables that are written by INSERT OR REPLACE.
  unfoldable pub same_sample : SampleRow D → SampleRow D → Bool
  same_sample a b = text_eq a.sensor_uid b.sensor_uid && int_eq a.ts_utc_ms b.ts_utc_ms

  unfoldable pub same_gpu : GpuRow D → GpuRow D → Bool
  same_gpu a b =
      text_eq a.machine_id b.machine_id
      && text_eq a.gpu_uid b.gpu_uid
      && int_eq a.ts_utc_ms b.ts_utc_ms

  -- WHERE EXISTS (SELECT 1 FROM sensor_catalog WHERE sensor_uid = ?).
  unfoldable pub in_catalog : Text → Db D → Bool
  in_catalog uid db = is_some (find_row sensor_key uid db.sensor_catalog)

  unfoldable pub execute : Sql → Params D → Db D → Db D
  execute upsert_machine_catalog ps db = record db {
    machine_catalog = upsert machine_key merge_machine (machine_row ps) db.machine_catalog;
  }
  execute upsert_collector_health ps db = record db {
    collector_health = upsert collector_key merge_collector (collector_row ps) db.collector_health;
  }
  execute upsert_sensor_catalog ps db = record db {
    sensor_catalog = upsert sensor_key merge_sensor (sensor_row ps) db.sensor_catalog;
  }
  execute insert_sensor_samples ps db =
      if in_catalog (as_text (param 8 ps)) db
      then record db { sensor_samples = replace same_sample (sample_row ps) db.sensor_samples }
      else db
  execute insert_gpu_samples ps db = record db {
    gpu_samples = replace same_gpu (gpu_row ps) db.gpu_samples;
  }
  execute insert_ollama_runtime_samples ps db = record db {
    ollama_runtime_samples = replace same_ollama (ollama_row ps) db.ollama_runtime_samples;
  }
