-- ===== src/Store/Effects.antt =====
-- What each bridge message makes of the tables, row by row.
use capacity_agent.Base.{Option, none, some, Text, codes, length, if◌then◌else◌}
use capacity_agent.Base.Int.{ℤ}
use capacity_agent.Bridge.Messages.{
  MessageEnvelope, HelloMessage, CatalogSensor, SensorSample, SampleBatchMessage, BridgeMessage,
  hello, catalog_snapshot, sample_batch, heartbeat,
}
use capacity_agent.Store.Json.{
  collector_id, build_machine_extra_json, build_hello_extra_json, build_catalog_extra_json,
  build_sample_extra_json, build_heartbeat_extra_json,
}
use capacity_agent.Store.Tables.{
  MachineRow, CollectorRow, SensorRow, SampleRow, Db, upsert, replace,
}
use capacity_agent.Store.Statements.{
  machine_key, merge_machine, collector_key, merge_collector, sensor_key, merge_sensor, same_sample,
  in_catalog,
}
use capacity_agent.Store.Bindings.{non_empty, of_bool}
use capacity_agent.Store.Atomic.{each}

module _ {D : Type 0} where
  unfoldable pub put_machine : MachineRow → Db D → Db D
  put_machine row db = record db {
    machine_catalog = upsert machine_key merge_machine row db.machine_catalog;
  }

  unfoldable pub put_collector : CollectorRow → Db D → Db D
  put_collector row db = record db {
    collector_health = upsert collector_key merge_collector row db.collector_health;
  }

  unfoldable pub put_sensor : SensorRow → Db D → Db D
  put_sensor row db = record db {
    sensor_catalog = upsert sensor_key merge_sensor row db.sensor_catalog;
  }

  -- A sample of a sensor that the catalog does not know is dropped.
  unfoldable pub put_sample : SampleRow D → Db D → Db D
  put_sample row db =
      if in_catalog row.sensor_uid db
      then record db { sensor_samples = replace same_sample row db.sensor_samples }
      else db

-- A machine that was seen, with nothing new about it.
abbrev pub seen_machine : MessageEnvelope → ℤ → MachineRow
seen_machine e seen = record {
  machine_id = e.machine_id;
  hostname = none;
  display_name = none;
  first_seen_utc_ms = seen;
  last_seen_utc_ms = seen;
  extra_json = none;
}

abbrev pub hello_machine : HelloMessage → MachineRow
hello_machine m = record {
  machine_id = m.envelope.machine_id;
  hostname = some m.hostname;
  display_name = some m.hostname;
  first_seen_utc_ms = m.envelope.sent_at_utc_ms;
  last_seen_utc_ms = m.envelope.sent_at_utc_ms;
  extra_json = some (build_machine_extra_json m);
}

abbrev pub collector : MessageEnvelope → Text → Text → Option ℤ → Option ℤ → Text → CollectorRow
collector e kind status last_hello last_sample extra = record {
  collector_id = collector_id e.machine_id e.source;
  machine_id = e.machine_id;
  source = e.source;
  collector_type = kind;
  status = status;
  last_hello_utc_ms = last_hello;
  last_sample_utc_ms = last_sample;
  last_error = none;
  updated_utc_ms = e.sent_at_utc_ms;
  extra_json = some extra;
}

abbrev pub catalog_row : MessageEnvelope → CatalogSensor → SensorRow
catalog_row e s = record {
  sensor_uid = s.sensor_uid;
  machine_id = e.machine_id;
  source = e.source;
  hardware_uid = s.hardware_uid;
  hardware_path = s.hardware_path;
  hardware_name = s.hardware_name;
  hardware_type = s.hardware_type;
  sensor_path = s.sensor_path;
  sensor_name = s.sensor_name;
  sensor_type = s.sensor_type;
  sensor_index = s.sensor_index;
  unit = s.unit;
  is_default_hidden = of_bool s.is_default_hidden;
  first_seen_utc_ms = e.sent_at_utc_ms;
  last_seen_utc_ms = e.sent_at_utc_ms;
  properties_json = non_empty s.properties_json;
}

abbrev pub batch_row : {D : Type 0} → SampleBatchMessage D → SensorSample D → SampleRow D
batch_row m s = record {
  sensor_uid = s.sensor_uid;
  ts_utc_ms = m.sample_time_utc_ms;
  value = some s.value;
  min_value = s.min_value;
  max_value = s.max_value;
  quality = s.quality;
  source = m.envelope.source;
}

-- What a message makes of the tables.
unfoldable pub effect : {D : Type 0} → BridgeMessage D → Db D → Db D
unfolding put_machine put_collector put_sensor put_sample
effect (hello m) db =
    put_collector
      (collector m.envelope (codes "bridge") (codes "ok") (some m.envelope.sent_at_utc_ms) none
        (build_hello_extra_json m))
      (put_machine (hello_machine m) db)
effect (catalog_snapshot m) db =
    each (λ s. put_sensor (catalog_row m.envelope s)) m.sensors
      (put_collector
        (collector m.envelope (codes "sensor_stream") (codes "ok") none none
          (build_catalog_extra_json (length m.sensors)))
        (put_machine (seen_machine m.envelope m.envelope.sent_at_utc_ms) db))
effect (sample_batch m) db =
    each (λ s. put_sample (batch_row m s)) m.samples
      (put_collector
        (collector m.envelope (codes "sensor_stream") (codes "ok") none (some m.sample_time_utc_ms)
          (build_sample_extra_json (length m.samples)))
        (put_machine (seen_machine m.envelope m.sample_time_utc_ms) db))
effect (heartbeat m) db =
    put_collector
      (collector m.envelope (codes "bridge") m.status none none (build_heartbeat_extra_json m))
      (put_machine (seen_machine m.envelope m.envelope.sent_at_utc_ms) db)
