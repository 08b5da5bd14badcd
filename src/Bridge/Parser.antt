-- ===== src/Bridge/Parser.antt =====
-- apps/host_agent/src/core/bridge_message_parser.cpp, from `RequireObject` to `ParseBridgeMessage`.
-- The vendored cJSON is a parameter: its nodes and the functions and fields that the source reads.
-- A function that returns false has a `Result` with the error text; what it wrote to its message
-- object before is dropped, since `*out_message` is assigned at the end only.
pub mod Accepts
use capacity_agent.Base.{
  ℕ, zero, suc, Bool, true, false, ◌&&◌, Option, none, some, List, [], ◌∷◌, ◌++◌, Text, codes,
  text_eq, if◌then◌else◌,
}
use capacity_agent.Base.Int.{ℤ}
use capacity_agent.Base.Results.{Result, error, ok, ◌>>=◌}
use capacity_agent.Bridge.Messages.{
  MessageEnvelope, HelloMessage, CatalogSensor, CatalogSnapshotMessage, SensorSample,
  SampleBatchMessage, HeartbeatMessage, BridgeMessage, hello, catalog_snapshot, sample_batch,
  heartbeat,
}
use capacity_agent.Bridge.Timestamp.{parse_iso8601_utc_ms}

-- What the source uses of cJSON, whose numbers are of the type `D` (`double`). `valueint` is the
-- number saturated to `int`, and `valueint64` is `static_cast<std::int64_t>(valuedouble)`.
pub record CJson (D : Type 0) : Type 1 where
  pub Node : Type 0
  pub parse : Text → Option Node
  pub get_object_item_case_sensitive : Node → Text → Option Node
  pub is_object : Node → Bool
  pub is_array : Node → Bool
  pub is_string : Node → Bool
  pub is_number : Node → Bool
  pub is_true : Node → Bool
  pub valuestring : Node → Option Text
  pub valueint : Node → ℤ
  pub valuedouble : Node → D
  pub valueint64 : Node → ℤ
  pub print_unformatted : Node → Option Text
  pub get_array_size : Node → ℕ
  pub get_array_item : Node → ℕ → Option Node

-- `ParseIso8601UtcMs`, with the error text of its caller.
unfoldable pub get_timestamp : Text → Text → Result ℤ
get_timestamp text message = elim (parse_iso8601_utc_ms text) [
  | none ↦ error message
  | some ms ↦ ok ms
]

module _ {D : Type 0} (json : CJson D) where
  -- The item that `RequireObject`, `RequireArray` or `RequireNumber` accepts.
  unfoldable pub require_object : Option json.Node → Option json.Node
  require_object none = none
  require_object (some item) = if json.is_object item then some item else none

  unfoldable pub require_array : Option json.Node → Option json.Node
  require_array none = none
  require_array (some item) = if json.is_array item then some item else none

  unfoldable pub require_number : Option json.Node → Option json.Node
  require_number none = none
  require_number (some item) = if json.is_number item then some item else none

  -- The text of an item that `RequireString` accepts.
  unfoldable pub require_string : Option json.Node → Option Text
  require_string none = none
  require_string (some item) = if json.is_string item then json.valuestring item else none

  unfoldable pub get_required_string : json.Node → Text → Result Text
  unfolding require_string
  get_required_string object key =
      elim (require_string (json.get_object_item_case_sensitive object key)) [
        | none ↦ error (codes "Missing or invalid string field: " ++ key)
        | some value ↦ ok value
      ]

  -- A numeric item, or the error of `GetRequiredInt` and `GetRequiredInt64`.
  unfoldable pub get_number : json.Node → Text → Result json.Node
  unfolding require_number
  get_number object key = elim (require_number (json.get_object_item_case_sensitive object key)) [
    | none ↦ error (codes "Missing or invalid number field: " ++ key)
    | some item ↦ ok item
  ]

  unfoldable pub get_required_int : json.Node → Text → Result ℤ
  unfolding get_number
  get_required_int object key = do item ← get_number object key; ok (json.valueint item)

  unfoldable pub get_required_int64 : json.Node → Text → Result ℤ
  unfolding get_number
  get_required_int64 object key = do item ← get_number object key; ok (json.valueint64 item)

  unfoldable pub json_compact_string : Option json.Node → Text
  json_compact_string none = []
  json_compact_string (some item) = elim (json.print_unformatted item) [
    | none ↦ []
    | some raw ↦ raw
  ]

  unfoldable pub parse_envelope : json.Node → Result MessageEnvelope
  unfolding get_required_string get_required_int get_timestamp
  parse_envelope root = do
    schema_version ← get_required_int root (codes "schema_version")
    source ← get_required_string root (codes "source")
    machine_id ← get_required_string root (codes "machine_id")
    sent_at_text ← get_required_string root (codes "sent_at_utc")
    sent_at_utc_ms ← get_timestamp sent_at_text (codes "Invalid sent_at_utc timestamp")
    ok (record {
      schema_version = schema_version;
      source = source;
      machine_id = machine_id;
      sent_at_utc_ms = sent_at_utc_ms;
    })

  unfoldable pub parse_hello : json.Node → Result (BridgeMessage D)
  unfolding parse_envelope get_required_string get_required_int json_compact_string
  parse_hello root = do
    envelope ← parse_envelope root
    bridge_version ← get_required_string root (codes "bridge_version")
    hostname ← get_required_string root (codes "hostname")
    pid ← get_required_int root (codes "pid")
    sample_interval_ms ← get_required_int root (codes "sample_interval_ms")
    ok (
        hello (record {
          envelope = envelope;
          bridge_version = bridge_version;
          hostname = hostname;
          pid = pid;
          sample_interval_ms = sample_interval_ms;
          capabilities_json =
              json_compact_string (json.get_object_item_case_sensitive root (codes "capabilities"));
        }))

  -- `hidden != nullptr && cJSON_IsTrue(hidden)`
  unfoldable pub is_set : Option json.Node → Bool
  is_set none = false
  is_set (some item) = json.is_true item

  -- The body of the loop of `ParseCatalogSnapshot`, for one item.
  unfoldable pub parse_sensor : json.Node → Result CatalogSensor
  unfolding get_required_string get_required_int json_compact_string is_set
  parse_sensor item = do
    sensor_uid ← get_required_string item (codes "sensor_uid")
    hardware_uid ← get_required_string item (codes "hardware_uid")
    hardware_path ← get_required_string item (codes "hardware_path")
    hardware_name ← get_required_string item (codes "hardware_name")
    hardware_type ← get_required_string item (codes "hardware_type")
    sensor_path ← get_required_string item (codes "sensor_path")
    sensor_name ← get_required_string item (codes "sensor_name")
    sensor_type ← get_required_string item (codes "sensor_type")
    sensor_index ← get_required_int item (codes "sensor_index")
    unit ← get_required_string item (codes "unit")
    ok (record {
      sensor_uid = sensor_uid;
      hardware_uid = hardware_uid;
      hardware_path = hardware_path;
      hardware_name = hardware_name;
      hardware_type = hardware_type;
      sensor_path = sensor_path;
      sensor_name = sensor_name;
      sensor_type = sensor_type;
      sensor_index = sensor_index;
      unit = unit;
      is_default_hidden =
          is_set (json.get_object_item_case_sensitive item (codes "is_default_hidden"));
      properties_json =
          json_compact_string (json.get_object_item_case_sensitive item (codes "properties"));
    })

  unfoldable pub optional_number : Option json.Node → Option D
  unfolding require_number
  optional_number item = elim (require_number item) [
    | none ↦ none
    | some n ↦ some (json.valuedouble n)
  ]

  -- The body of the loop of `ParseSampleBatch`, for one item.
  unfoldable pub parse_sample : json.Node → Result (SensorSample D)
  unfolding get_required_string get_number optional_number
  parse_sample item = do
    sensor_uid ← get_required_string item (codes "sensor_uid")
    quality ← get_required_string item (codes "quality")
    value ← get_number item (codes "value")
    ok (record {
      sensor_uid = sensor_uid;
      value = json.valuedouble value;
      min_value = optional_number (json.get_object_item_case_sensitive item (codes "min"));
      max_value = optional_number (json.get_object_item_case_sensitive item (codes "max"));
      quality = quality;
    })

  -- An item of an array that `RequireObject` accepts.
  unfoldable pub get_object : json.Node → ℕ → Text → Result json.Node
  unfolding require_object
  get_object array i message = elim (require_object (json.get_array_item array i)) [
    | none ↦ error message
    | some item ↦ ok item
  ]

  -- `for (int i = 0; i < count; ++i)`, with `remaining = count - i`: parse the item and append it.
  unfoldable pub parse_items :
      {A : Type 0} → (json.Node → Result A) → Text → json.Node → ℕ → ℕ → Result (List A)
  unfolding get_object
  parse_items parse_item message array zero i = ok []
  parse_items parse_item message array (suc remaining) i = do
    item ← get_object array i message
    parsed ← parse_item item
    rest ← parse_items parse_item message array remaining (suc i)
    ok (parsed ∷ rest)

  unfoldable pub get_required_array : json.Node → Text → Result json.Node
  unfolding require_array
  get_required_array object key =
      elim (require_array (json.get_object_item_case_sensitive object key)) [
        | none ↦ error (codes "Missing or invalid array field: " ++ key)
        | some array ↦ ok array
      ]

  unfoldable pub parse_catalog_snapshot : json.Node → Result (BridgeMessage D)
  unfolding parse_envelope get_required_array parse_items parse_sensor
  parse_catalog_snapshot root = do
    envelope ← parse_envelope root
    array ← get_required_array root (codes "sensors")
    sensors ←
        parse_items parse_sensor (codes "Invalid sensor entry in catalog_snapshot") array
          (json.get_array_size array) 0
    ok (catalog_snapshot (record { envelope = envelope; sensors = sensors }))

  unfoldable pub parse_sample_batch : json.Node → Result (BridgeMessage D)
  unfolding parse_envelope get_required_string get_timestamp get_required_array parse_items
      parse_sample
  parse_sample_batch root = do
    envelope ← parse_envelope root
    sample_time_text ← get_required_string root (codes "sample_time_utc")
    sample_time_utc_ms ← get_timestamp sample_time_text (codes "Invalid sample_time_utc timestamp")
    array ← get_required_array root (codes "samples")
    samples ←
        parse_items parse_sample (codes "Invalid sample entry in sample_batch") array
          (json.get_array_size array) 0
    ok (
        sample_batch (record {
          envelope = envelope;
          sample_time_utc_ms = sample_time_utc_ms;
          samples = samples;
        }))

  unfoldable pub parse_heartbeat : json.Node → Result (BridgeMessage D)
  unfolding parse_envelope get_required_string get_required_int get_required_int64
  parse_heartbeat root = do
    envelope ← parse_envelope root
    status ← get_required_string root (codes "status")
    uptime_seconds ← get_required_int64 root (codes "uptime_s")
    catalog_count ← get_required_int root (codes "catalog_count")
    ok (
        heartbeat (record {
          envelope = envelope;
          status = status;
          uptime_seconds = uptime_seconds;
          catalog_count = catalog_count;
        }))

  -- The chain of tests on `type`.
  unfoldable pub parse_typed : json.Node → Text → Result (BridgeMessage D)
  unfolding parse_hello parse_catalog_snapshot parse_sample_batch parse_heartbeat
  parse_typed root type =
      if text_eq type (codes "hello")
      then parse_hello root
      else if text_eq type (codes "catalog_snapshot")
      then parse_catalog_snapshot root
      else if text_eq type (codes "sample_batch")
      then parse_sample_batch root
      else if text_eq type (codes "heartbeat")
      then parse_heartbeat root
      else error (codes "Unsupported message type: " ++ type)

  unfoldable pub parse_bridge_message : Text → Result (BridgeMessage D)
  unfolding get_required_string parse_typed
  parse_bridge_message json_line = elim (json.parse json_line) [
    | none ↦ error (codes "Invalid JSON payload")
    | some root ↦ do type ← get_required_string root (codes "type"); parse_typed root type
  ]
