-- ===== src/Api.antt =====
-- The handlers of apps/host_agent/src/api/http_server.cpp that decide something: /v1/history and
-- /v1/readiness. `stoi` and `stoll` are the standard library's, with none for an exception; the
-- arithmetic of `double` is an interface; each reading of the clock is an argument.
pub mod Contracts
pub mod Documents
pub mod Json
pub mod Shapes
pub mod Snapshots
pub mod Trees
pub mod Verdicts
pub mod History
use capacity_agent.Base.{
  ℕ, suc, Bool, true, false, not, ◌||◌, ◌&&◌, Option, none, some, List, [], ◌∷◌, ◌++◌, Text, codes,
  text_eq, length, if◌then◌else◌,
}
use capacity_agent.Base.Options.{◌>>=◌}
use capacity_agent.Base.Int.{ℤ, pos, pos_part, ltb_ℤ, ◌+ℤ◌, ◌-ℤ◌}
use capacity_agent.Base.Double.{Doubles}
use capacity_agent.Store.Json.{to_string}
use capacity_agent.Store.Tables.{SampleRow, Db}
use capacity_agent.Store.Rows.{CollectorHealthRow, GpuSnapshotRow}
use capacity_agent.Store.Queries.{query_sensor_history}

-- The parameters of /v1/history, as texts, where they are given.
pub record HistoryRequest : Type 0 where
  pub sensor_uid : Option Text
  pub from_param : Option Text
  pub to_param : Option Text
  pub limit_param : Option Text

pub data HistoryResponse (D : Type 0) : Type 0 where
  -- Status 400.
  sensor_uid_required : HistoryResponse D
  -- `stoi` or `stoll` threw.
  exception : HistoryResponse D
  -- The uid, the window, and the samples.
  history : Text → ℤ → ℤ → List (SampleRow D) → HistoryResponse D

-- The two tests on a limit that was given.
unfoldable pub clamp_limit : ℤ → ℕ
clamp_limit limit =
    let positive = if ltb_ℤ (pos 0) limit then limit else pos 500 in
    if ltb_ℤ (pos 10000) positive then 10000 else pos_part positive

abbrev pub param_or : (Text → Option ℤ) → ℤ → Option Text → Option ℤ
param_or read d none = some d
param_or read d (some t) = read t

abbrev pub of_option : {D : Type 0} → Option (HistoryResponse D) → HistoryResponse D
of_option none = exception
of_option (some r) = r

module _ (stoi stoll : Text → Option ℤ) where
  unfoldable pub get_limit : Option Text → Option ℕ
  unfolding clamp_limit
  get_limit none = some 500
  get_limit (some t) = do limit ← stoi t; some (clamp_limit limit)

  unfoldable pub get_history : {D : Type 0} → HistoryRequest → ℤ → Db D → HistoryResponse D
  unfolding get_limit
  get_history request now db = elim request.sensor_uid [
    | none ↦ sensor_uid_required
    | some uid ↦ of_option (do
      from_ms ← param_or stoll (pos 0) request.from_param
      to_ms ← param_or stoll now request.to_param
      limit ← get_limit request.limit_param
      some (history uid from_ms to_ms (query_sensor_history uid from_ms to_ms limit db)))
  ]

pub data Verdict : Type 0 where
  stale unknown insufficient_vram fits_idle fits_available fits_busy : Verdict

-- The texts of the verdicts.
unfoldable pub verdict_text : Verdict → Text
verdict_text stale = codes "stale"
verdict_text unknown = codes "unknown"
verdict_text insufficient_vram = codes "insufficient_vram"
verdict_text fits_idle = codes "fits_idle"
verdict_text fits_available = codes "fits_available"
verdict_text fits_busy = codes "fits_busy"

pub record Readiness : Type 0 where
  pub verdict : Verdict
  pub reasons : List Text

abbrev pub stale_threshold_ms : ℤ
stale_threshold_ms = pos 30000

-- The first row of a source that has sampled: its `last_sample_utc_ms`.
unfoldable pub last_sample_of : Text → List CollectorHealthRow → Option ℤ
last_sample_of source [] = none
last_sample_of source (c ∷ collectors) =
    let rest = last_sample_of source collectors in
    if text_eq c.source source
    then (elim c.last_sample_utc_ms [ none ↦ rest | some t ↦ some t ])
    else rest

unfoldable pub is_stale : ℤ → ℤ → Bool
is_stale now t = ltb_ℤ stale_threshold_ms (now -ℤ t)

-- `gpu_stale`: true if no row of direct_gpu has sampled.
unfoldable pub gpu_stale : ℤ → List CollectorHealthRow → Bool
unfolding last_sample_of is_stale
gpu_stale now collectors = elim (last_sample_of (codes "direct_gpu") collectors) [
  | none ↦ true
  | some t ↦ is_stale now t
]

module _ (d : Doubles) where
  -- `std::max(a, b)`.
  unfoldable pub max_double : d.Double → d.Double → d.Double
  max_double a b = if d.lt a b then b else a

  -- `if (value.has_value()) acc = std::max(acc, *value);`
  abbrev pub max_optional : d.Double → Option d.Double → d.Double
  max_optional acc none = acc
  max_optional acc (some v) = max_double acc v

  unfoldable pub max_of :
      (GpuSnapshotRow d.Double → Option d.Double)
      → d.Double
      → List (GpuSnapshotRow d.Double)
      → d.Double
  unfolding max_double
  max_of value acc [] = acc
  max_of value acc (gpu ∷ gpus) = max_of value (max_optional acc (value gpu)) gpus

  -- What the loop of the verdict knows of the memory.
  pub record Vram : Type 0 where
    pub has_vram : Bool
    pub total_vram_free : ℤ

  abbrev pub free_of : GpuSnapshotRow d.Double → Option ℤ
  free_of gpu = elim gpu.vram_total_bytes [
    | none ↦ none
    | some total ↦ (elim gpu.vram_used_bytes [ none ↦ none | some used ↦ some (total -ℤ used) ])
  ]

  abbrev pub add_free : Vram → Option ℤ → Vram
  add_free v none = v
  add_free v (some free) = record { has_vram = true; total_vram_free = v.total_vram_free +ℤ free }

  unfoldable pub vram : Vram → List (GpuSnapshotRow d.Double) → Vram
  vram v [] = v
  vram v (gpu ∷ gpus) = vram (add_free v (free_of gpu)) gpus

  abbrev pub no_vram : Vram
  no_vram = record { has_vram = false; total_vram_free = pos 0 }

  -- The branch with fresh GPU data.
  unfoldable pub fresh_readiness : ℤ → List (GpuSnapshotRow d.Double) → Readiness
  unfolding vram max_of
  fresh_readiness required gpus =
      let v = vram no_vram gpus in
      let max_util = max_of (λ g. g.util_gpu_pct) (d.of_int (pos 0)) gpus in
      if not v.has_vram
      then record { verdict = unknown; reasons = codes "no VRAM data available" ∷ [] }
      else if ltb_ℤ (pos 0) required && ltb_ℤ v.total_vram_free required
      then record {
        verdict = insufficient_vram;
        reasons =
            (codes "required "
              ++ to_string required
              ++ codes " bytes but only "
              ++ to_string v.total_vram_free
              ++ codes " free")
            ∷ [];
      }
      else if d.lt max_util (d.of_int (pos 30))
      then record { verdict = fits_idle; reasons = [] }
      else if d.lt max_util (d.of_int (pos 80))
      then record { verdict = fits_available; reasons = [] }
      else record {
        verdict = fits_busy;
        reasons = (codes "GPU utilization at " ++ to_string (d.to_int max_util) ++ codes "%") ∷ [];
      }

  -- The branch without GPU rows; `now` is its reading of the clock.
  unfoldable pub bridge_readiness : ℤ → List CollectorHealthRow → Readiness
  unfolding last_sample_of is_stale
  bridge_readiness now collectors =
      let no_data : Readiness = record {
        verdict = stale;
        reasons = codes "no recent sensor data" ∷ [];
      } in
      elim (last_sample_of (codes "librehw_bridge") collectors) [
        | none ↦ no_data
        | some t ↦ if is_stale now t then no_data else record {
          verdict = unknown;
          reasons = codes "no GPU collector data available" ∷ [];
        }
      ]

  unfoldable pub readiness :
      ℤ → ℤ → ℤ → List (GpuSnapshotRow d.Double) → List CollectorHealthRow → Readiness
  unfolding gpu_stale fresh_readiness bridge_readiness
  readiness now now2 required [] collectors = bridge_readiness now2 collectors
  readiness now now2 required (gpu ∷ gpus) collectors =
      if gpu_stale now collectors
      then record { verdict = stale; reasons = codes "GPU data is stale" ∷ [] }
      else fresh_readiness required (gpu ∷ gpus)

  -- The `gpu_summary` of the answer, for at least one GPU.
  pub record GpuSummary : Type 0 where
    pub gpu_count : ℕ
    pub max_util_pct : d.Double
    pub max_temperature_c : d.Double
    pub total_power_w : d.Double
    pub vram_free_bytes : ℤ
    pub vram_total_bytes : ℤ

  unfoldable pub total_power : d.Double → List (GpuSnapshotRow d.Double) → d.Double
  total_power acc [] = acc
  total_power acc (gpu ∷ gpus) =
      total_power (elim gpu.power_w [ none ↦ acc | some w ↦ d.add acc w ]) gpus

  unfoldable pub total_vram : ℤ → List (GpuSnapshotRow d.Double) → ℤ
  total_vram acc [] = acc
  total_vram acc (gpu ∷ gpus) =
      total_vram (elim gpu.vram_total_bytes [ none ↦ acc | some b ↦ acc +ℤ b ]) gpus

  unfoldable pub gpu_summary : List (GpuSnapshotRow d.Double) → GpuSummary
  unfolding max_of vram total_power total_vram
  gpu_summary gpus = record {
    gpu_count = length gpus;
    max_util_pct = max_of (λ g. g.util_gpu_pct) (d.of_int (pos 0)) gpus;
    max_temperature_c = max_of (λ g. g.core_c) (d.of_int (pos 0)) gpus;
    total_power_w = total_power (d.of_int (pos 0)) gpus;
    vram_free_bytes = (vram no_vram gpus).total_vram_free;
    vram_total_bytes = total_vram (pos 0) gpus;
  }
