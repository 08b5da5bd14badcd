-- ===== src/Collectors.antt =====
-- One round of `PollLoop` of apps/host_agent/src/collectors/direct_gpu_collector.cpp. The snapshots, the
-- names of the GPUs and the time are what the reader and the clock return; an `unsigned int` is a number.
pub mod Rounds
pub mod Latest
pub mod Loops
pub mod Reports
pub mod Ollama
use capacity_agent.Base.{
  ℕ, ◌*◌, Bool, true, false, not, ltb, ◌==◌, Option, none, some, List, [], ◌∷◌, ◌++◌, Text, codes,
  get_elem?, get_or, if◌then◌else◌,
}
use capacity_agent.Base.Int.{ℤ, pos, negsuc, ltb_ℤ}
use capacity_agent.Base.Double.{Doubles}
use capacity_agent.Bridge.Calendar.{to_i32}
use capacity_agent.Gpu.Snapshot.{GpuSnapshot, FanEntry, no_fan}
use capacity_agent.Store.Json.{to_string}
use capacity_agent.Store.Tables.{int_eq}
use capacity_agent.Store.Connection.{Conn}
use capacity_agent.Store.Writes.{insert_gpu_sample, upsert_collector_health_direct}
use capacity_agent.Store.Bindings.{GpuSample, non_empty}

-- `OptInt`.
unfoldable pub opt_int : ℤ → Option ℤ
opt_int value = if ltb_ℤ (pos 0) value then some value else none

-- `OptInt64`, and the conversion from MB to bytes.
unfoldable pub vram_bytes : ℕ → Option ℤ
vram_bytes mb = if ltb 0 mb then some (pos (mb * 1048576)) else none

-- The name of the GPU with the index, or the empty text.
unfoldable pub name_of : List Text → ℤ → Text
name_of infos (pos n) = elim (get_elem? infos n) [ none ↦ [] | some name ↦ name ]
name_of infos (negsuc n) = []

-- `fans[0]`.
abbrev pub fan0 : {D : Type 0} → GpuSnapshot D → FanEntry
fan0 snap = get_or snap.fans 0 no_fan

module _ (d : Doubles) where
  -- `OptDouble`.
  unfoldable pub opt_double : d.Double → Option d.Double
  opt_double value = if d.eq value (d.of_int (pos 0)) then none else some value

  abbrev pub when : Bool → ℤ → Option d.Double
  when b n = if b then some (d.of_int n) else none

  unfoldable pub gpu_sample_of : Text → List Text → ℤ → GpuSnapshot d.Double → GpuSample d.Double
  unfolding opt_int vram_bytes name_of opt_double
  gpu_sample_of machine_id infos now snap = record {
    machine_id = machine_id;
    gpu_uid = codes "nvapi:" ++ to_string snap.gpu_index;
    gpu_index = snap.gpu_index;
    ts_utc_ms = now;
    gpu_name = non_empty (name_of infos snap.gpu_index);
    backend = codes "nvml_nvapi";
    core_c = opt_double snap.core_c;
    hotspot_c = when (not (int_eq snap.hotspot_c (pos 0))) snap.hotspot_c;
    mem_junction_c = opt_double snap.memjn_c;
    util_gpu_pct = when (not (ltb_ℤ snap.util_gpu_pct (pos 0))) snap.util_gpu_pct;
    util_mem_pct = when (ltb 0 snap.nvml_util_mem_pct) (pos snap.nvml_util_mem_pct);
    power_w =
        if ltb 0 snap.nvml_power_mw
        then some (d.div (d.of_int (pos snap.nvml_power_mw)) (d.of_int (pos 1000)))
        else none;
    vram_used_bytes = vram_bytes snap.vram_used_mb;
    vram_total_bytes = vram_bytes snap.vram_total_mb;
    clock_graphics_mhz = opt_int (to_i32 snap.clock_graphics_mhz);
    clock_memory_mhz = opt_int (to_i32 snap.clock_memory_mhz);
    fan0_rpm = if ltb_ℤ (pos 0) snap.fan_count then some (to_i32 (fan0 snap).rpm) else none;
    fan0_pct = when (ltb_ℤ (pos 0) snap.fan_count) (pos (fan0 snap).level_pct);
  }

  module _ (fails : ℕ → Bool) (machine_id : Text) (infos : List Text) (now : ℤ) where
    -- The loop over the snapshots; nobody reads whether a row was stored.
    unfoldable pub insert_all : List (GpuSnapshot d.Double) → Conn d.Double → Conn d.Double
    insert_all [] c = c
    insert_all (snap ∷ snaps) c =
        insert_all snaps (insert_gpu_sample fails (gpu_sample_of machine_id infos now snap) c).1

    -- One round, up to the sleep.
    unfoldable pub poll_round : List (GpuSnapshot d.Double) → Conn d.Double → Conn d.Double
    unfolding insert_all
    poll_round snaps c =
        (upsert_collector_health_direct fails machine_id (codes "direct_gpu") (codes "gpu_poller")
          (codes "ok") now none (insert_all snaps c)).1
