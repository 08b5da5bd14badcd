-- ===== src/Api/Documents.antt =====
-- The answers of apps/host_agent/src/api/http_server.cpp as documents: /v1/status, /v1/catalog and
-- /v1/history. `now` and `clock` are the readings of `NowUtcMs`.
use capacity_agent.Base.{Option, none, some, List, [], ◌∷◌, map, length, Text, codes}
use mathlib.Core.Option
use capacity_agent.Base.Int.{ℤ, pos}
use capacity_agent.Base.Double.{Doubles}
use capacity_agent.Store.Tables.{Db}
use capacity_agent.Store.Rows.{
  CollectorHealthRow, MachineRow, SensorCatalogRow, SensorSampleRow, collector_health_row,
  machine_summary, sensor_catalog_row, sensor_sample_row,
}
use capacity_agent.Store.Queries.{
  CatalogFilter, query_collector_health, query_machine_catalog, query_sensor_catalog,
}
use capacity_agent.Api.{HistoryResponse, sensor_uid_required, exception, history}
use capacity_agent.Api.Json.{
  CJsonWriter, print_json, add_string, add_int, add_int64, add_double, add_bool,
  add_optional_double, add_optional_int64, add_optional_string, add_items,
}

-- What the library sends: a status and a body. An exception of a handler is answered by httplib.
pub data HttpAnswer : Type 0 where
  sent : ℤ → Text → HttpAnswer
  thrown : HttpAnswer

module _ (d : Doubles) (json : CJsonWriter d.Double) (machine_id : Text) where
  -- /v1/status
  abbrev pub health_entry : CollectorHealthRow → json.Node
  health_entry c =
      let entry = add_string d json json.create_object (codes "status") c.status in
      let entry = add_optional_int64 d json entry (codes "last_hello_utc_ms") c.last_hello_utc_ms in
      let entry =
        add_optional_int64 d json entry (codes "last_sample_utc_ms") c.last_sample_utc_ms in
      let entry = add_optional_string d json entry (codes "last_error") c.last_error in
      add_int64 d json entry (codes "updated_utc_ms") c.updated_utc_ms

  unfoldable pub add_health : List CollectorHealthRow → json.Node → json.Node
  add_health [] obj = obj
  add_health (c ∷ collectors) obj =
      add_health collectors (json.add_item_to_object obj c.source (health_entry c))

  abbrev pub add_machine : Option MachineRow → json.Node → json.Node
  add_machine none root = root
  add_machine (some machine) root =
      let root = add_string d json root (codes "hostname") machine.hostname in
      let root = add_string d json root (codes "display_name") machine.display_name in
      let root = add_int64 d json root (codes "first_seen_utc_ms") machine.first_seen_utc_ms in
      add_int64 d json root (codes "last_seen_utc_ms") machine.last_seen_utc_ms

  unfoldable pub status_document : ℤ → List CollectorHealthRow → Option MachineRow → json.Node
  unfolding add_health
  status_document now collectors machine =
      let root = add_string d json json.create_object (codes "machine_id") machine_id in
      let root = add_int64 d json root (codes "generated_utc_ms") now in
      let root = add_string d json root (codes "api_version") (codes "1.0") in
      let root =
        json.add_item_to_object root (codes "collectors")
          (add_health collectors json.create_object) in
      add_machine machine root

  unfoldable pub get_status : ℤ → Db d.Double → HttpAnswer
  unfolding status_document print_json query_collector_health query_machine_catalog
      collector_health_row machine_summary
  get_status now db = sent (pos 200) (
      print_json d json (
        status_document now (map collector_health_row (query_collector_health machine_id db))
          (Option.map machine_summary (query_machine_catalog machine_id db))))

  -- /v1/catalog
  abbrev pub catalog_item : SensorCatalogRow → json.Node
  catalog_item s =
      let item = add_string d json json.create_object (codes "sensor_uid") s.sensor_uid in
      let item = add_string d json item (codes "hardware_name") s.hardware_name in
      let item = add_string d json item (codes "hardware_type") s.hardware_type in
      let item = add_string d json item (codes "sensor_name") s.sensor_name in
      let item = add_string d json item (codes "sensor_type") s.sensor_type in
      let item = add_string d json item (codes "unit") s.unit in
      let item = add_int d json item (codes "sensor_index") s.sensor_index in
      add_bool d json item (codes "is_default_hidden") s.is_default_hidden

  unfoldable pub catalog_document : List SensorCatalogRow → json.Node
  unfolding add_items
  catalog_document sensors =
      let root = add_string d json json.create_object (codes "machine_id") machine_id in
      let root = add_int d json root (codes "sensor_count") (pos (length sensors)) in
      json.add_item_to_object root (codes "sensors")
        (add_items d json catalog_item sensors json.create_array)

  unfoldable pub get_catalog : CatalogFilter → Db d.Double → HttpAnswer
  unfolding catalog_document print_json query_sensor_catalog sensor_catalog_row
  get_catalog filter db = sent (pos 200) (
      print_json d json
        (catalog_document (map sensor_catalog_row (query_sensor_catalog machine_id filter db))))

  -- /v1/history
  abbrev pub history_item : SensorSampleRow d.Double → json.Node
  history_item s =
      let item = add_int64 d json json.create_object (codes "ts_utc_ms") s.ts_utc_ms in
      let item = add_double d json item (codes "value") s.value in
      let item = add_optional_double d json item (codes "min") s.min_value in
      let item = add_optional_double d json item (codes "max") s.max_value in
      add_string d json item (codes "quality") s.quality

  unfoldable pub history_document : Text → ℤ → ℤ → List (SensorSampleRow d.Double) → json.Node
  unfolding add_items
  history_document sensor_uid from_ms to_ms samples =
      let root = add_string d json json.create_object (codes "sensor_uid") sensor_uid in
      let root = add_int64 d json root (codes "from_utc_ms") from_ms in
      let root = add_int64 d json root (codes "to_utc_ms") to_ms in
      let root = add_int d json root (codes "count") (pos (length samples)) in
      json.add_item_to_object root (codes "samples")
        (add_items d json history_item samples json.create_array)

  abbrev pub answer_history : HistoryResponse d.Double → HttpAnswer
  answer_history sensor_uid_required =
      sent (pos 400) (codes "{\"error\":\"sensor_uid parameter is required\"}")
  answer_history exception = thrown
  answer_history (history uid from_ms to_ms samples) =
      sent (pos 200)
        (print_json d json (history_document uid from_ms to_ms (map (sensor_sample_row d) samples)))
