-- ===== src/Store/Queries.antt =====
-- The queries of apps/host_agent/src/storage/sqlite_store.cpp as functions of the tables, for a
-- connection that answers them. A query without ORDER BY gives its rows in the order of the table.
pub mod History
use capacity_agent.Base.{
  ℕ, Bool, true, false, not, ◌&&◌, ◌||◌, ltb, ◌==◌, Option, none, some, List, [], ◌∷◌, Text,
  text_eq, take, if◌then◌else◌,
}
use capacity_agent.Base.Int.{ℤ, pos, ltb_ℤ}
use capacity_agent.Store.Tables.{
  CollectorRow, MachineRow, SensorRow, SampleRow, GpuRow, OllamaRow, Db, find_row, int_eq,
}
use capacity_agent.Store.Statements.{machine_key}

abbrev pub select : {A : Type 0} → (A → Bool) → List A → List A
select p [] = []
select p (a ∷ as') = let rest = select p as' in if p a then a ∷ rest else rest

-- ORDER BY, with the relation that says which row comes first.
module _ {A : Type 0} (before : A → A → Bool) where
  unfoldable pub insert : A → List A → List A
  insert a [] = a ∷ []
  insert a (b ∷ bs) = let rest = insert a bs in if before b a then b ∷ rest else a ∷ b ∷ bs

  unfoldable pub order_by : List A → List A
  order_by [] = []
  order_by (a ∷ as') = insert a (order_by as')

unfoldable pub query_collector_health : {D : Type 0} → Text → Db D → List CollectorRow
query_collector_health machine_id db =
    select (λ c. text_eq c.machine_id machine_id) db.collector_health

-- `hostname` and `display_name` of the source's row are empty where the column is NULL.
unfoldable pub query_machine_catalog : {D : Type 0} → Text → Db D → Option MachineRow
query_machine_catalog machine_id db = find_row machine_key machine_id db.machine_catalog

pub record CatalogFilter : Type 0 where
  pub hardware_type : Option Text
  pub sensor_type : Option Text

abbrev pub matches : Option Text → Text → Bool
matches none t = true
matches (some wanted) t = text_eq t wanted

-- The order of texts, byte by byte.
unfoldable pub text_lt : Text → Text → Bool
text_lt a [] = false
text_lt [] (b ∷ bs) = true
text_lt (a ∷ as') (b ∷ bs) = ltb a b || (a == b && text_lt as' bs)

-- `ORDER BY hardware_type, sensor_type, sensor_name`.
unfoldable pub catalog_before : SensorRow → SensorRow → Bool
unfolding text_lt
catalog_before a b =
    text_lt a.hardware_type b.hardware_type
    || (text_eq a.hardware_type b.hardware_type
        && (text_lt a.sensor_type b.sensor_type
            || (text_eq a.sensor_type b.sensor_type && text_lt a.sensor_name b.sensor_name)))

unfoldable pub in_filter : Text → CatalogFilter → SensorRow → Bool
in_filter machine_id filter s =
    text_eq s.machine_id machine_id
    && matches filter.hardware_type s.hardware_type
    && matches filter.sensor_type s.sensor_type

unfoldable pub query_sensor_catalog : {D : Type 0} → Text → CatalogFilter → Db D → List SensorRow
unfolding catalog_before in_filter order_by
query_sensor_catalog machine_id filter db =
    order_by catalog_before (select (in_filter machine_id filter) db.sensor_catalog)

-- `ts_utc_ms BETWEEN from AND to` and `ORDER BY ts_utc_ms DESC`.
unfoldable pub in_window : {D : Type 0} → Text → ℤ → ℤ → SampleRow D → Bool
in_window uid from_ms to_ms s =
    text_eq s.sensor_uid uid && not (ltb_ℤ s.ts_utc_ms from_ms) && not (ltb_ℤ to_ms s.ts_utc_ms)

unfoldable pub newer : {D : Type 0} → SampleRow D → SampleRow D → Bool
newer a b = ltb_ℤ b.ts_utc_ms a.ts_utc_ms

unfoldable pub query_sensor_history : {D : Type 0} → Text → ℤ → ℤ → ℕ → Db D → List (SampleRow D)
unfolding in_window newer order_by
query_sensor_history sensor_uid from_ms to_ms limit db =
    take limit (order_by newer (select (in_window sensor_uid from_ms to_ms) db.sensor_samples))

-- `SELECT MAX(ts_utc_ms)`; none if there is no row.
unfoldable pub max_ts : {A : Type 0} → (A → ℤ) → List A → Option ℤ
max_ts ts [] = none
max_ts ts (a ∷ as') = elim (max_ts ts as') [
  | none ↦ some (ts a)
  | some m ↦ some (if ltb_ℤ m (ts a) then ts a else m)
]

-- The GPU rows of the latest instant of a machine, by index.
unfoldable pub query_latest_gpus : {D : Type 0} → Text → Db D → List (GpuRow D)
unfolding max_ts order_by
query_latest_gpus machine_id db =
    let rows = select (λ g. text_eq g.machine_id machine_id) db.gpu_samples in
    elim (max_ts (λ g. g.ts_utc_ms) rows) [
      | none ↦ []
      | some m ↦
          order_by (λ a b. ltb_ℤ a.gpu_index b.gpu_index) (select (λ g. int_eq g.ts_utc_ms m) rows)
    ]

-- What the snapshot says of Ollama.
pub record OllamaSnapshot : Type 0 where
  pub reachable : Bool
  pub loaded_model_count : ℤ
  pub resident_vram_bytes : Option ℤ

abbrev pub value_or : ℤ → Option ℤ → ℤ
value_or d none = d
value_or d (some n) = n

abbrev pub of_row : Option OllamaRow → OllamaSnapshot
of_row none = record { reachable = false; loaded_model_count = pos 0; resident_vram_bytes = none }
of_row (some row) = record {
  reachable = true;
  loaded_model_count = value_or (pos 0) row.loaded_model_count;
  resident_vram_bytes = row.resident_vram_bytes;
}

abbrev pub first : {A : Type 0} → List A → Option A
first [] = none
first (a ∷ as') = some a

unfoldable pub query_latest_ollama : {D : Type 0} → Text → Db D → OllamaSnapshot
unfolding order_by
query_latest_ollama machine_id db = of_row (
    first (
      order_by (λ a b. ltb_ℤ b.ts_utc_ms a.ts_utc_ms)
        (select (λ o. text_eq o.machine_id machine_id) db.ollama_runtime_samples)))
