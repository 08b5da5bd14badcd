-- ===== src/Store/Tables.antt =====
-- The tables of apps/host_agent/sql/schema.sql that the store writes, and what each INSERT statement of
-- apps/host_agent/src/storage/sqlite_store.cpp makes of them, from its text: the columns by the
-- numbers of the bound parameters, the conflict clauses, and the guards. `D` is `double`.
use capacity_agent.Base.{
  ℕ, Bool, ◌&&◌, ◌==◌, Option, none, some, List, [], ◌∷◌, ◌++◌, Text, text_eq, if◌then◌else◌,
}
use capacity_agent.Base.Int.{ℤ, pos, ltb_ℤ, pos_part, neg_part}

-- What a parameter can be bound to.
pub data Value (D : Type 0) : Type 0 where
  null : Value D
  integer : ℤ → Value D
  real : D → Value D
  text : Text → Value D

abbrev pub Params : Type 0 → Type 0
Params D = List (ℕ × Value D)

pub record MachineRow : Type 0 where
  pub machine_id : Text
  pub hostname : Option Text
  pub display_name : Option Text
  pub first_seen_utc_ms : ℤ
  pub last_seen_utc_ms : ℤ
  pub extra_json : Option Text

pub record CollectorRow : Type 0 where
  pub collector_id : Text
  pub machine_id : Text
  pub source : Text
  pub collector_type : Text
  pub status : Text
  pub last_hello_utc_ms : Option ℤ
  pub last_sample_utc_ms : Option ℤ
  pub last_error : Option Text
  pub updated_utc_ms : ℤ
  pub extra_json : Option Text

pub record SensorRow : Type 0 where
  pub sensor_uid : Text
  pub machine_id : Text
  pub source : Text
  pub hardware_uid : Text
  pub hardware_path : Text
  pub hardware_name : Text
  pub hardware_type : Text
  pub sensor_path : Text
  pub sensor_name : Text
  pub sensor_type : Text
  pub sensor_index : ℤ
  pub unit : Text
  pub is_default_hidden : ℤ
  pub first_seen_utc_ms : ℤ
  pub last_seen_utc_ms : ℤ
  pub properties_json : Option Text

pub record SampleRow (D : Type 0) : Type 0 where
  pub sensor_uid : Text
  pub ts_utc_ms : ℤ
  pub value : Option D
  pub min_value : Option D
  pub max_value : Option D
  pub quality : Text
  pub source : Text

pub record GpuRow (D : Type 0) : Type 0 where
  pub machine_id : Text
  pub gpu_uid : Text
  pub gpu_index : ℤ
  pub ts_utc_ms : ℤ
  pub gpu_name : Option Text
  pub backend : Text
  pub core_c : Option D
  pub hotspot_c : Option D
  pub mem_junction_c : Option D
  pub util_gpu_pct : Option D
  pub util_mem_pct : Option D
  pub power_w : Option D
  pub vram_used_bytes : Option ℤ
  pub vram_total_bytes : Option ℤ
  pub clock_graphics_mhz : Option ℤ
  pub clock_memory_mhz : Option ℤ
  pub fan0_rpm : Option ℤ
  pub fan0_pct : Option D

pub record OllamaRow : Type 0 where
  pub machine_id : Text
  pub ts_utc_ms : ℤ
  pub base_url : Text
  pub active_request_count : Option ℤ
  pub queued_request_count : Option ℤ
  pub loaded_model_count : Option ℤ
  pub resident_vram_bytes : Option ℤ
  pub resident_ram_bytes : Option ℤ

pub record Db (D : Type 0) : Type 0 where
  pub machine_catalog : List MachineRow
  pub collector_health : List CollectorRow
  pub sensor_catalog : List SensorRow
  pub sensor_samples : List (SampleRow D)
  pub gpu_samples : List (GpuRow D)
  pub ollama_runtime_samples : List OllamaRow

-- A parameter that was not bound is NULL; the last binding counts.
unfoldable pub param : {D : Type 0} → ℕ → Params D → Value D
param n [] = null
param n ((i, v) ∷ ps) = if i == n then v else param n ps

-- What a column of the parameter's type holds.
abbrev pub as_text : {D : Type 0} → Value D → Text
as_text (text t) = t
as_text _ = []

abbrev pub as_opt_text : {D : Type 0} → Value D → Option Text
as_opt_text (text t) = some t
as_opt_text _ = none

abbrev pub as_int : {D : Type 0} → Value D → ℤ
as_int (integer n) = n
as_int _ = pos 0

abbrev pub as_opt_int : {D : Type 0} → Value D → Option ℤ
as_opt_int (integer n) = some n
as_opt_int _ = none

abbrev pub as_opt_real : {D : Type 0} → Value D → Option D
as_opt_real (real d) = some d
as_opt_real _ = none

abbrev pub coalesce : {A : Type 0} → Option A → Option A → Option A
coalesce none old = old
coalesce (some new) old = some new

-- INSERT ... ON CONFLICT(key) DO UPDATE: the old row with the key is merged with the new one.
module _ {R : Type 0} (key : R → Text) (merge : R → R → R) where
  unfoldable pub upsert : R → List R → List R
  upsert new [] = new ∷ []
  upsert new (old ∷ rows) =
      if text_eq (key old) (key new) then merge old new ∷ rows else old ∷ upsert new rows

unfoldable pub find_row : {R : Type 0} → (R → Text) → Text → List R → Option R
find_row key k [] = none
find_row key k (row ∷ rows) = if text_eq (key row) k then some row else find_row key k rows

-- INSERT OR REPLACE: a row with the same primary key goes, and the new row comes last.
module _ {R : Type 0} (same : R → R → Bool) where
  unfoldable pub remove_same : R → List R → List R
  remove_same new [] = []
  remove_same new (row ∷ rows) =
      if same row new then remove_same new rows else row ∷ remove_same new rows

  unfoldable pub replace : R → List R → List R
  unfolding remove_same
  replace new rows = remove_same new rows ++ new ∷ []

unfoldable pub int_eq : ℤ → ℤ → Bool
int_eq a b = pos_part a == pos_part b && neg_part a == neg_part b

-- The CASE of `last_seen_utc_ms`: the later one.
unfoldable pub later : ℤ → ℤ → ℤ
later new old = if ltb_ℤ old new then new else old

-- The CASE of `last_hello_utc_ms` and `last_sample_utc_ms`.
unfoldable pub later_opt : Option ℤ → Option ℤ → Option ℤ
unfolding later
later_opt none old = old
later_opt (some new) none = some new
later_opt (some new) (some old) = some (later new old)
