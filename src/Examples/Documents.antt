-- ===== src/Examples/Documents.antt =====
-- The documents of the API, with trees for the items of cJSON.
use capacity_agent.Base.{ℕ, ◌≡◌, refl, true, false, none, some, [], ◌∷◌, codes}
use capacity_agent.Base.Int.{pos}
use capacity_agent.Store.Rows.{MachineRow, SensorCatalogRow, SensorSampleRow}
use capacity_agent.Store.Snapshot.{LatestSnapshot, no_metrics}
use capacity_agent.Api.{Readiness, fits_idle}
use capacity_agent.Api.Json.{CJsonWriter}
use capacity_agent.Api.Documents.{status_document, catalog_document, history_document}
use capacity_agent.Api.Snapshots.{snapshot_document, readiness_document}
use capacity_agent.Api.Trees.{
  Tree, null, flag, number, string, array, object, nil, cons, end, field, put, push, WriterLaws,
}
use capacity_agent.Api.Shapes.{Shaped}
use capacity_agent.Api.Contracts.{
  status_shape, catalog_shape, history_shape, snapshot_shape, readiness_shape,
}
use capacity_agent.Api.Contracts.Kept.{documents-Shaped}
use capacity_agent.Examples.Answers.{naturals, gpu, direct_gpu}

abbrev trees : CJsonWriter ℕ
trees = record {
  Node = Tree ℕ;
  create_object = object end;
  create_array = array nil;
  create_string = string;
  add_string_to_object = λ o k t. put k (string t) o;
  add_number_to_object = λ o k n. put k (number n) o;
  add_bool_to_object = λ o k b. put k (flag b) o;
  add_null_to_object = λ o k. put k null o;
  add_item_to_object = λ o k n. put k n o;
  add_item_to_array = λ a n. push n a;
  print_unformatted = λ n. none;
}

abbrev trees_hold : WriterLaws trees
trees_hold = record {
  tree = λ n. n;
  tree-create_object = refl;
  tree-create_array = refl;
  tree-create_string = λ t. refl;
  tree-add_string = λ o k t. refl;
  tree-add_number = λ o k n. refl;
  tree-add_bool = λ o k b. refl;
  tree-add_null = λ o k. refl;
  tree-add_item_to_object = λ o k n. refl;
  tree-add_item_to_array = λ a n. refl;
}

abbrev sensor : SensorCatalogRow
sensor = record {
  sensor_uid = codes "cpu/0";
  hardware_name = codes "CPU";
  hardware_type = codes "Cpu";
  sensor_name = codes "Package";
  sensor_type = codes "Temperature";
  unit = codes "C";
  sensor_index = pos 0;
  is_default_hidden = false;
}

abbrev sample : SensorSampleRow ℕ
sample = record {
  ts_utc_ms = pos 7;
  value = 42;
  min_value = none;
  max_value = some 50;
  quality = codes "good";
}

abbrev machine : MachineRow
machine = record {
  machine_id = codes "pc";
  hostname = codes "pc";
  display_name = [];
  first_seen_utc_ms = pos 1;
  last_seen_utc_ms = pos 9;
}

abbrev snapshot : LatestSnapshot naturals
snapshot = record {
  system = no_metrics naturals;
  gpus = gpu ∷ [];
  ollama = record { reachable = true; loaded_model_count = pos 1; resident_vram_bytes = none };
}

abbrev idle : Readiness
idle = record { verdict = fits_idle; reasons = [] }

documents-Shaped_example :
    Shaped trees_hold
      (status_shape (some machine))
      (status_document naturals trees (codes "pc") (pos 3) (direct_gpu ∷ []) (some machine))
    × Shaped trees_hold catalog_shape (catalog_document naturals trees (codes "pc") (sensor ∷ []))
    × Shaped trees_hold history_shape
        (history_document naturals trees (codes "pc") (codes "cpu/0") (pos 0) (pos 9) (sample ∷ []))
    × Shaped trees_hold snapshot_shape
        (snapshot_document naturals trees (codes "pc") (λ k. pos 3) snapshot (direct_gpu ∷ []))
    × Shaped trees_hold
        (readiness_shape snapshot.gpus)
        (readiness_document naturals trees (codes "pc") (pos 3) idle snapshot)
documents-Shaped_example =
    documents-Shaped naturals trees trees_hold (codes "pc") (λ k. pos 3) (direct_gpu ∷ [])
      (some machine) (sensor ∷ []) (codes "cpu/0") (pos 0) (pos 9) (sample ∷ []) snapshot idle

-- The answer about a sensor.
one_sensor :
    catalog_document naturals trees (codes "pc") (sensor ∷ [])
    ≡ object (
        field (codes "machine_id") (string (codes "pc")) (
          field (codes "sensor_count") (number 1) (
            field
              (codes "sensors")
              (array (
                cons
                  (object (
                    field (codes "sensor_uid") (string (codes "cpu/0")) (
                      field (codes "hardware_name") (string (codes "CPU")) (
                        field (codes "hardware_type") (string (codes "Cpu")) (
                          field (codes "sensor_name") (string (codes "Package")) (
                            field (codes "sensor_type") (string (codes "Temperature")) (
                              field (codes "unit") (string (codes "C")) (
                                field
                                  (codes "sensor_index")
                                  (number 0)
                                  (field (codes "is_default_hidden") (flag false) end)))))))))
                  nil))
              end)))
unfolding catalog_document
one_sensor = refl
