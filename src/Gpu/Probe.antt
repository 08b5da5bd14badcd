-- ===== src/Gpu/Probe.antt =====
-- libs/gpu_telemetry/src/gpu_probe.cpp: the polling helpers. All the calls that a sample makes of the driver
-- are made at the moment of the sample; no two of them are equal.
use capacity_agent.Base.{
  ℕ, zero, suc, ◌/◌, ◌%◌, min, not, ◌&&◌, ltb, ◌==◌, Option, none, some, List, [], ◌∷◌,
  if◌then◌else◌,
}
use capacity_agent.Base.Int.{ℤ, pos, negsuc, ltb_ℤ}
use capacity_agent.Base.Double.{Doubles}
use capacity_agent.Bridge.Calendar.{to_i32}
use capacity_agent.Gpu.Snapshot.{GpuSnapshot, FanEntry, PowerRailEntry, max_fans, max_power_rails}
use capacity_agent.Gpu.Driver.{
  NvClockType, NvClockDomainEntry, NvDynamicPStatesUtilEntry, PowerTopologyStatus,
  PowerTopologyEntry, NvFanCoolersStatusItem, NvFanCoolersStatus, NvmlUtilization, NvmlMemoryInfo,
}
use capacity_agent.Gpu.NvmlLoader.{
  get_temperature, get_clock, get_power_usage, get_utilization, get_memory_info,
  get_encoder_utilization, get_decoder_utilization, get_pcie_throughput, get_pcie_link_gen,
  get_pcie_link_width, get_throttle_reasons,
}
use capacity_agent.Gpu.Thermals.{is_empty, read}
use capacity_agent.Gpu.Fans.{get_status}
use capacity_agent.Gpu.Contexts.{GpuBackendContext, Impl}

-- A call through a pointer that may be null, of which only a status `NVAPI_OK` counts.
abbrev pub answer : {A : Type 0} → Option (ℕ → ℕ → Option A) → ℕ → ℕ → Option A
answer none moment gpu = none
answer (some f) moment gpu = f moment gpu

-- An element at an index that is in range, of a count that is cast to `int`.
unfoldable pub at_index : {A : Type 0} → ℤ → (ℕ → A) → ℕ → Option A
at_index (pos i) f n = if ltb_ℤ (pos i) (to_i32 n) then some (f i) else none
at_index (negsuc i) f n = none

-- The first `n` entries of an array are set, those after it stay.
abbrev pub fill_first : {A : Type 0} → ℕ → (ℕ → A) → List A → List A
fill_first zero f old = old
fill_first (suc n) f [] = []
fill_first (suc n) f (a ∷ old) = f 0 ∷ fill_first n (λ i. f (suc i)) old

abbrev pub fan_of : (ℕ → NvFanCoolersStatusItem) → ℕ → FanEntry
fan_of items i = record { level_pct = (items i).current_level; rpm = (items i).current_rpm }

abbrev pub rail_of : (ℕ → PowerTopologyEntry) → ℕ → PowerRailEntry
rail_of entries i = record { domain = (entries i).domain; power_mw = (entries i).power_mw }

module _ (d : Doubles) where
  -- `temps[index] / 256.0`, or the old value for a negative index.
  abbrev pub celsius : ℤ → (ℕ → ℤ) → d.Double → d.Double
  celsius (pos i) temps old = d.div (d.of_int (temps i)) (d.of_int (pos 256))
  celsius (negsuc i) temps old = old

  module _ (p : Impl) (moment : ℕ) (g : GpuBackendContext) where
    unfoldable pub poll_thermals_undoc : GpuSnapshot d.Double → GpuSnapshot d.Double
    unfolding read
    poll_thermals_undoc snap =
        if p.thermals.ready && not (is_empty g.thermal_disc.mask)
        then elim (read p.thermals moment g.nvapi_handle g.thermal_disc.mask) [
          | none ↦ snap
          | some temps ↦ record snap {
            core_c = celsius g.thermal_disc.core_index temps snap.core_c;
            memjn_c = celsius g.thermal_disc.memj_index temps snap.memjn_c;
          }
        ]
        else snap

    -- The parts of `poll_common_medium`, in their order.
    abbrev pub poll_temperature : GpuSnapshot d.Double → GpuSnapshot d.Double
    poll_temperature snap =
        if g.info.has_nvml
        then record snap {
          nvml_temp_c = (get_temperature p.nvml moment g.nvml_device 0 snap.nvml_temp_c).1;
        }
        else snap

    abbrev pub poll_hotspot : GpuSnapshot d.Double → GpuSnapshot d.Double
    poll_hotspot snap =
        if g.info.has_hotspot
        then elim (answer p.fn_thermal_doc moment g.nvapi_handle) [
          | none ↦ snap
          | some ts ↦ elim (at_index g.hotspot_sensor_idx ts.sensor ts.count) [
            | none ↦ snap
            | some sensor ↦ record snap { hotspot_c = sensor.current_temp }
          ]
        ]
        else snap

    abbrev pub mhz : NvClockDomainEntry → ℕ → ℕ
    mhz entry old = if entry.present == 0 then old else entry.freq_khz / 1000

    abbrev pub current_clocks :
        Option (ℕ → NvClockDomainEntry) → GpuSnapshot d.Double → GpuSnapshot d.Double
    current_clocks none snap = snap
    current_clocks (some domain) snap = record snap {
      clock_graphics_mhz = mhz (domain 0) snap.clock_graphics_mhz;
      clock_memory_mhz = mhz (domain 4) snap.clock_memory_mhz;
      clock_video_mhz = mhz (domain 8) snap.clock_video_mhz;
    }

    abbrev pub boost_clock :
        Option (ℕ → NvClockDomainEntry) → GpuSnapshot d.Double → GpuSnapshot d.Double
    boost_clock none snap = snap
    boost_clock (some domain) snap = record snap {
      clock_boost_mhz = mhz (domain 0) snap.clock_boost_mhz;
    }

    abbrev pub poll_clocks : GpuSnapshot d.Double → GpuSnapshot d.Double
    poll_clocks snap = elim p.fn_clocks [
      | none ↦ snap
      | some f ↦
          boost_clock (f moment g.nvapi_handle NvClockType.boost)
            (current_clocks (f moment g.nvapi_handle NvClockType.current) snap)
    ]

    abbrev pub poll_nvml_clocks : GpuSnapshot d.Double → GpuSnapshot d.Double
    poll_nvml_clocks snap =
        if g.info.has_nvml
        then record snap {
          nvml_clock_graphics_mhz =
              (get_clock p.nvml moment g.nvml_device 0 snap.nvml_clock_graphics_mhz).1;
          nvml_clock_memory_mhz =
              (get_clock p.nvml moment g.nvml_device 2 snap.nvml_clock_memory_mhz).1;
          nvml_clock_video_mhz =
              (get_clock p.nvml moment g.nvml_device 3 snap.nvml_clock_video_mhz).1;
        }
        else snap

    abbrev pub poll_pstate : GpuSnapshot d.Double → GpuSnapshot d.Double
    poll_pstate snap = elim (answer p.fn_cur_pstate moment g.nvapi_handle) [
      | none ↦ snap
      | some ps ↦ record snap { pstate = ps }
    ]

    abbrev pub percentage_or : NvDynamicPStatesUtilEntry → ℤ → ℤ
    percentage_or entry old = if entry.present == 0 then old else entry.percentage

    abbrev pub poll_utilization : GpuSnapshot d.Double → GpuSnapshot d.Double
    poll_utilization snap = elim (answer p.fn_pstates moment g.nvapi_handle) [
      | none ↦ snap
      | some utilization ↦ record snap {
        util_gpu_pct = percentage_or (utilization 0) snap.util_gpu_pct;
        util_fb_pct = percentage_or (utilization 1) snap.util_fb_pct;
        util_vid_pct = percentage_or (utilization 2) snap.util_vid_pct;
      }
    ]

    abbrev pub no_utilization : NvmlUtilization
    no_utilization = record { gpu = 0; memory = 0 }

    abbrev pub poll_nvml_utilization : GpuSnapshot d.Double → GpuSnapshot d.Double
    poll_nvml_utilization snap =
        let r = get_utilization p.nvml moment g.nvml_device no_utilization in
        if g.info.has_nvml && r.0
        then record snap { nvml_util_gpu_pct = r.1.gpu; nvml_util_mem_pct = r.1.memory }
        else snap

    unfoldable pub poll_common_medium : GpuSnapshot d.Double → GpuSnapshot d.Double
    unfolding get_temperature at_index get_clock get_utilization
    poll_common_medium snap = poll_nvml_utilization (
        poll_utilization
          (poll_pstate (poll_nvml_clocks (poll_clocks (poll_hotspot (poll_temperature snap))))))

    -- The two parts of `poll_power`.
    abbrev pub poll_board : GpuSnapshot d.Double → GpuSnapshot d.Double
    poll_board snap =
        if g.info.has_nvml
        then record snap {
          nvml_power_mw = (get_power_usage p.nvml moment g.nvml_device snap.nvml_power_mw).1;
        }
        else snap

    abbrev pub with_rails : Option PowerTopologyStatus → GpuSnapshot d.Double → GpuSnapshot d.Double
    with_rails none snap = snap
    with_rails (some topo) snap = record snap {
      power_rail_count = pos (min topo.count max_power_rails);
      power_rails =
          fill_first (min topo.count max_power_rails) (rail_of topo.entries) snap.power_rails;
    }

    unfoldable pub poll_power : GpuSnapshot d.Double → GpuSnapshot d.Double
    unfolding get_power_usage
    poll_power snap = with_rails (answer p.fn_power_topo moment g.nvapi_handle) (poll_board snap)

    abbrev pub with_fans : Option NvFanCoolersStatus → GpuSnapshot d.Double → GpuSnapshot d.Double
    with_fans none snap = snap
    with_fans (some status) snap = record snap {
      fan_count = pos (min status.count max_fans);
      fans = fill_first (min status.count max_fans) (fan_of status.items) snap.fans;
    }

    unfoldable pub poll_fans : GpuSnapshot d.Double → GpuSnapshot d.Double
    unfolding get_status
    poll_fans snap = with_fans (get_status p.fans moment g.nvapi_handle) snap

    -- The parts of `poll_slow_data`, in their order.
    abbrev pub poll_voltage : GpuSnapshot d.Double → GpuSnapshot d.Double
    poll_voltage snap = elim (answer p.fn_voltage moment g.nvapi_handle) [
      | none ↦ snap
      | some vds ↦
          if ltb 0 vds.count
          then record snap { voltage_core_mv = (vds.domains 0).current_mv }
          else snap
    ]

    -- Bytes in MB, cast to `unsigned int`.
    abbrev pub megabytes : ℕ → ℕ
    megabytes bytes = (bytes / 1048576) % 4294967296

    abbrev pub no_memory : NvmlMemoryInfo
    no_memory = record { total = 0; free = 0; used = 0 }

    abbrev pub poll_vram : GpuSnapshot d.Double → GpuSnapshot d.Double
    poll_vram snap =
        let r = get_memory_info p.nvml moment g.nvml_device no_memory in
        if g.info.has_nvml && r.0
        then record snap {
          vram_used_mb = megabytes r.1.used;
          vram_free_mb = megabytes r.1.free;
          vram_total_mb = megabytes r.1.total;
        }
        else snap

    -- Encoder, decoder, PCIe and throttle reasons: one output for each, and a period that is shared.
    abbrev pub poll_nvml_rest : GpuSnapshot d.Double → GpuSnapshot d.Double
    poll_nvml_rest snap =
        let n = p.nvml in
        let device = g.nvml_device in
        let encoder = (get_encoder_utilization n moment device snap.nvml_encoder_pct 0).1 in
        let decoder = (get_decoder_utilization n moment device snap.nvml_decoder_pct encoder.1).1 in
        if g.info.has_nvml
        then record snap {
          nvml_encoder_pct = encoder.0;
          nvml_decoder_pct = decoder.0;
          pcie_tx_kb_s = (get_pcie_throughput n moment device 0 snap.pcie_tx_kb_s).1;
          pcie_rx_kb_s = (get_pcie_throughput n moment device 1 snap.pcie_rx_kb_s).1;
          pcie_link_gen = (get_pcie_link_gen n moment device snap.pcie_link_gen).1;
          pcie_link_width = (get_pcie_link_width n moment device snap.pcie_link_width).1;
          throttle_reasons = (get_throttle_reasons n moment device snap.throttle_reasons).1;
        }
        else snap

    unfoldable pub poll_slow_data : GpuSnapshot d.Double → GpuSnapshot d.Double
    unfolding get_memory_info get_encoder_utilization get_decoder_utilization get_pcie_throughput
        get_pcie_link_gen get_pcie_link_width get_throttle_reasons
    poll_slow_data snap = poll_nvml_rest (poll_vram (poll_voltage snap))
