-- ===== src/Store/Snapshot.antt =====
-- `QueryLatestSnapshot` of apps/host_agent/src/storage/sqlite_store.cpp. Its first query joins the view
-- latest_sensor_samples of sql/schema.sql with the catalog and has no ORDER BY: its rows are taken by the
-- order of the catalog.
use capacity_agent.Base.{
  Bool, ◌&&◌, ◌||◌, Option, none, some, List, [], ◌∷◌, ◌++◌, map, Text, codes, text_eq,
  if◌then◌else◌,
}
use capacity_agent.Base.Options.{is_some}
use capacity_agent.Base.Int.{ℤ, pos}
use capacity_agent.Base.Double.{Doubles}
use capacity_agent.Pusher.{find_text}
use capacity_agent.Store.Tables.{SensorRow, SampleRow, Db, int_eq}
use capacity_agent.Store.Rows.{GpuSnapshotRow, gpu_snapshot_row, column_double}
use capacity_agent.Store.Queries.{
  select, max_ts, query_latest_gpus, query_latest_ollama, OllamaSnapshot,
}

-- The samples of a sensor at the time of its last one.
unfoldable pub latest_of : {D : Type 0} → Text → List (SampleRow D) → List (SampleRow D)
unfolding max_ts
latest_of uid samples =
    let of_sensor = select (λ s. text_eq s.sensor_uid uid) samples in
    elim (max_ts (λ s. s.ts_utc_ms) of_sensor) [
      | none ↦ []
      | some m ↦ select (λ s. int_eq s.ts_utc_ms m) of_sensor
    ]

-- The columns of the first query.
pub record SystemRow (D : Type 0) : Type 0 where
  pub sensor_name : Text
  pub sensor_type : Text
  pub hardware_type : Text
  pub value : D

-- The WHERE clause.
unfoldable pub is_system : Text → SensorRow → Bool
is_system machine_id sensor =
    text_eq sensor.machine_id machine_id
    && (text_eq sensor.hardware_type (codes "Cpu") || text_eq sensor.hardware_type (codes "Memory"))
    && (text_eq sensor.sensor_type (codes "Temperature")
        || text_eq sensor.sensor_type (codes "Load")
        || text_eq sensor.sensor_type (codes "Data"))

module _ (d : Doubles) where
  abbrev pub join_samples : SensorRow → List (SampleRow d.Double) → List (SystemRow d.Double)
  join_samples sensor = map (λ s. record {
    sensor_name = sensor.sensor_name;
    sensor_type = sensor.sensor_type;
    hardware_type = sensor.hardware_type;
    value = column_double d s.value;
  })

  unfoldable pub join_all : List SensorRow → List (SampleRow d.Double) → List (SystemRow d.Double)
  unfolding latest_of
  join_all [] samples = []
  join_all (sensor ∷ sensors) samples =
      join_samples sensor (latest_of sensor.sensor_uid samples) ++ join_all sensors samples

  -- The members of the snapshot on the system.
  pub record SystemMetrics : Type 0 where
    pub cpu_package_c : Option d.Double
    pub cpu_total_load_pct : Option d.Double
    pub memory_used_bytes : Option ℤ
    pub memory_total_bytes : Option ℤ

  abbrev pub no_metrics : SystemMetrics
  no_metrics = record {
    cpu_package_c = none;
    cpu_total_load_pct = none;
    memory_used_bytes = none;
    memory_total_bytes = none;
  }

  abbrev pub has_type : Text → Text → SystemRow d.Double → Bool
  has_type hardware sensor row =
      text_eq row.hardware_type hardware && text_eq row.sensor_type sensor

  abbrev pub has_word : Text → SystemRow d.Double → Bool
  has_word word row = is_some (find_text word row.sensor_name)

  abbrev pub keep_first : Option d.Double → d.Double → Option d.Double
  keep_first none value = some value
  keep_first (some old) value = some old

  -- The body of the loop.
  unfoldable pub add_metric : SystemRow d.Double → SystemMetrics → SystemMetrics
  unfolding find_text
  add_metric row m =
      if has_type (codes "Cpu") (codes "Temperature") row
      then record m { cpu_package_c = keep_first m.cpu_package_c row.value }
      else if has_type (codes "Cpu") (codes "Load") row && has_word (codes "Total") row
      then record m { cpu_total_load_pct = some row.value }
      else if has_type (codes "Memory") (codes "Load") row
      then m
      else if has_type (codes "Memory") (codes "Data") row && has_word (codes "Used") row
      then record m {
        memory_used_bytes = some (d.to_int64 (d.mul row.value (d.of_int (pos 1073741824))));
      }
      else m

  unfoldable pub add_metrics : List (SystemRow d.Double) → SystemMetrics → SystemMetrics
  unfolding add_metric
  add_metrics [] m = m
  add_metrics (row ∷ rows) m = add_metrics rows (add_metric row m)

  unfoldable pub query_system : Text → Db d.Double → SystemMetrics
  unfolding is_system join_all add_metrics
  query_system machine_id db =
      add_metrics (join_all (select (is_system machine_id) db.sensor_catalog) db.sensor_samples)
        no_metrics

  pub record LatestSnapshot : Type 0 where
    pub system : SystemMetrics
    pub gpus : List (GpuSnapshotRow d.Double)
    pub ollama : OllamaSnapshot

  unfoldable pub query_latest_snapshot : Text → Db d.Double → LatestSnapshot
  unfolding query_system query_latest_gpus gpu_snapshot_row query_latest_ollama
  query_latest_snapshot machine_id db = record {
    system = query_system machine_id db;
    gpus = map gpu_snapshot_row (query_latest_gpus machine_id db);
    ollama = query_latest_ollama machine_id db;
  }
