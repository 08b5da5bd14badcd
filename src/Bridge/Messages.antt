-- ===== src/Bridge/Messages.antt =====
-- apps/host_agent/include/host_agent/model/bridge_messages.h. `D` is `double`; a field `int` or
-- `std::int64_t` is an integer.
use capacity_agent.Base.{Bool, Option, List, Text}
use capacity_agent.Base.Int.{ℤ}

pub record MessageEnvelope : Type 0 where
  pub schema_version : ℤ
  pub source : Text
  pub machine_id : Text
  pub sent_at_utc_ms : ℤ

pub record HelloMessage : Type 0 where
  pub envelope : MessageEnvelope
  pub bridge_version : Text
  pub hostname : Text
  pub pid : ℤ
  pub sample_interval_ms : ℤ
  pub capabilities_json : Text

pub record CatalogSensor : Type 0 where
  pub sensor_uid : Text
  pub hardware_uid : Text
  pub hardware_path : Text
  pub hardware_name : Text
  pub hardware_type : Text
  pub sensor_path : Text
  pub sensor_name : Text
  pub sensor_type : Text
  pub sensor_index : ℤ
  pub unit : Text
  pub is_default_hidden : Bool
  pub properties_json : Text

pub record CatalogSnapshotMessage : Type 0 where
  pub envelope : MessageEnvelope
  pub sensors : List CatalogSensor

pub record SensorSample (D : Type 0) : Type 0 where
  pub sensor_uid : Text
  pub value : D
  pub min_value : Option D
  pub max_value : Option D
  pub quality : Text

pub record SampleBatchMessage (D : Type 0) : Type 0 where
  pub envelope : MessageEnvelope
  pub sample_time_utc_ms : ℤ
  pub samples : List (SensorSample D)

pub record HeartbeatMessage : Type 0 where
  pub envelope : MessageEnvelope
  pub status : Text
  pub uptime_seconds : ℤ
  pub catalog_count : ℤ

pub data BridgeMessage (D : Type 0) : Type 0 where
  hello : HelloMessage → BridgeMessage D
  catalog_snapshot : CatalogSnapshotMessage → BridgeMessage D
  sample_batch : SampleBatchMessage D → BridgeMessage D
  heartbeat : HeartbeatMessage → BridgeMessage D
