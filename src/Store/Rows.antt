-- ===== src/Store/Rows.antt =====
-- The rows that the queries give, of apps/host_agent/include/host_agent/storage/sqlite_store.h, read
-- column by column as in apps/host_agent/src/storage/sqlite_store.cpp.
use capacity_agent.Base.{Bool, not, Option, none, some, [], Text}
use capacity_agent.Base.Int.{ℤ, pos}
use capacity_agent.Base.Double.{Doubles}
use capacity_agent.Store.Tables.{
  MachineRow as MachineRecord, CollectorRow, SensorRow, SampleRow, GpuRow, int_eq,
}

pub record CollectorHealthRow : Type 0 where
  pub collector_id : Text
  pub machine_id : Text
  pub source : Text
  pub collector_type : Text
  pub status : Text
  pub last_hello_utc_ms : Option ℤ
  pub last_sample_utc_ms : Option ℤ
  pub last_error : Option Text
  pub updated_utc_ms : ℤ

pub record MachineRow : Type 0 where
  pub machine_id : Text
  pub hostname : Text
  pub display_name : Text
  pub first_seen_utc_ms : ℤ
  pub last_seen_utc_ms : ℤ

pub record SensorCatalogRow : Type 0 where
  pub sensor_uid : Text
  pub hardware_name : Text
  pub hardware_type : Text
  pub sensor_name : Text
  pub sensor_type : Text
  pub unit : Text
  pub sensor_index : ℤ
  pub is_default_hidden : Bool

pub record SensorSampleRow (D : Type 0) : Type 0 where
  pub ts_utc_ms : ℤ
  pub value : D
  pub min_value : Option D
  pub max_value : Option D
  pub quality : Text

pub record GpuSnapshotRow (D : Type 0) : Type 0 where
  pub gpu_index : ℤ
  pub gpu_name : Text
  pub core_c : Option D
  pub hotspot_c : Option D
  pub util_gpu_pct : Option D
  pub vram_used_bytes : Option ℤ
  pub vram_total_bytes : Option ℤ
  pub power_w : Option D

-- `ColumnText` and `ColumnDouble` of a column that may be NULL; the `ColumnOptional...` functions keep it.
abbrev pub column_text : Option Text → Text
column_text none = []
column_text (some t) = t

abbrev pub column_double : (d : Doubles) → Option d.Double → d.Double
column_double d none = d.of_int (pos 0)
column_double d (some v) = v

unfoldable pub collector_health_row : CollectorRow → CollectorHealthRow
collector_health_row r = record {
  collector_id = r.collector_id;
  machine_id = r.machine_id;
  source = r.source;
  collector_type = r.collector_type;
  status = r.status;
  last_hello_utc_ms = r.last_hello_utc_ms;
  last_sample_utc_ms = r.last_sample_utc_ms;
  last_error = r.last_error;
  updated_utc_ms = r.updated_utc_ms;
}

unfoldable pub machine_summary : MachineRecord → MachineRow
machine_summary r = record {
  machine_id = r.machine_id;
  hostname = column_text r.hostname;
  display_name = column_text r.display_name;
  first_seen_utc_ms = r.first_seen_utc_ms;
  last_seen_utc_ms = r.last_seen_utc_ms;
}

unfoldable pub sensor_catalog_row : SensorRow → SensorCatalogRow
sensor_catalog_row r = record {
  sensor_uid = r.sensor_uid;
  hardware_name = r.hardware_name;
  hardware_type = r.hardware_type;
  sensor_name = r.sensor_name;
  sensor_type = r.sensor_type;
  unit = r.unit;
  sensor_index = r.sensor_index;
  is_default_hidden = not (int_eq r.is_default_hidden (pos 0));
}

unfoldable pub sensor_sample_row : (d : Doubles) → SampleRow d.Double → SensorSampleRow d.Double
sensor_sample_row d r = record {
  ts_utc_ms = r.ts_utc_ms;
  value = column_double d r.value;
  min_value = r.min_value;
  max_value = r.max_value;
  quality = r.quality;
}

unfoldable pub gpu_snapshot_row : {D : Type 0} → GpuRow D → GpuSnapshotRow D
gpu_snapshot_row r = record {
  gpu_index = r.gpu_index;
  gpu_name = column_text r.gpu_name;
  core_c = r.core_c;
  hotspot_c = r.hotspot_c;
  util_gpu_pct = r.util_gpu_pct;
  vram_used_bytes = r.vram_used_bytes;
  vram_total_bytes = r.vram_total_bytes;
  power_w = r.power_w;
}
