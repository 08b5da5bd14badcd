-- ===== src/Examples/Tables.antt =====
-- The store at one message of each kind of interest.
use capacity_agent.Base.{ℕ, ◌≡◌, refl, ◌==◌, Bool, true, false, none, some, [], ◌∷◌, codes, text_eq}
use capacity_agent.Base.Int.{pos}
use capacity_agent.Bridge.Messages.{MessageEnvelope, BridgeMessage, sample_batch}
use capacity_agent.Store.Tables.{MachineRow, Db, find_row}
use capacity_agent.Store.Statements.{machine_key}
use capacity_agent.Bridge.Parser.Accepts.{envelope_of}
use capacity_agent.Store.Timeline.{Continues, persist-Continues}
use capacity_agent.Store.Connection.{Conn}
use capacity_agent.Store.Transaction.{Atomic}
use capacity_agent.Store.Effects.{put_collector, effect}
use capacity_agent.Store.Persist.{persist, persist-Atomic}
use capacity_agent.Store.Writes.{upsert_collector_health_direct}
use capacity_agent.Store.Bindings.{GpuSample}
use capacity_agent.Store.Direct.{Single, report, upsert_collector_health_direct-Single}
use capacity_agent.Store.Healthy.{persist-succeeds, persist_stores}
use capacity_agent.Store.Consistent.{all_known, Consistent}

abbrev pub no_rows : Db ℕ
no_rows = record {
  machine_catalog = [];
  collector_health = [];
  sensor_catalog = [];
  sensor_samples = [];
  gpu_samples = [];
  ollama_runtime_samples = [];
}

-- A database that was not opened yet.
abbrev pub closed : Conn ℕ
closed = record { is_open = false; has_parent = true; db = no_rows; saved = none; calls = 0 }

abbrev sender : MessageEnvelope
sender = record {
  schema_version = pos 1;
  source = codes "librehw_bridge";
  machine_id = codes "pc";
  sent_at_utc_ms = pos 1774692120100;
}

abbrev pub batch : BridgeMessage ℕ
batch = sample_batch (record {
  envelope = sender;
  sample_time_utc_ms = pos 1774692120100;
  samples =
      record {
        sensor_uid = codes "cpu/0";
        value = 42;
        min_value = none;
        max_value = some 50;
        quality = codes "good";
      }
      ∷ [];
})

-- The 20th call of SQLite fails.
abbrev fails_late : ℕ → Bool
fails_late n = n == 20

abbrev fails_never : ℕ → Bool
fails_never n = false

pub no_rows-Consistent : Consistent no_rows
unfolding Consistent all_known
no_rows-Consistent = refl

persist-Atomic_example : Atomic no_rows (effect batch) (persist fails_late batch closed)
persist-Atomic_example = persist-Atomic fails_late batch closed refl

persist_stores_example :
    ((persist fails_never batch closed).0 ≡ true)
    × ((persist fails_never batch closed).1.db ≡ effect batch closed.db)
    × ((persist fails_never batch closed).1.saved ≡ none)
persist_stores_example = persist_stores fails_never (λ n. refl) batch closed refl

abbrev pub gpu_sample : GpuSample ℕ
gpu_sample = record {
  machine_id = codes "pc";
  gpu_uid = codes "gpu0";
  gpu_index = pos 0;
  ts_utc_ms = pos 100000;
  gpu_name = some (codes "RTX");
  backend = codes "nvml";
  core_c = some 60;
  hotspot_c = none;
  mem_junction_c = none;
  util_gpu_pct = some 10;
  util_mem_pct = none;
  power_w = some 100;
  vram_used_bytes = some (pos 2000);
  vram_total_bytes = some (pos 8000);
  clock_graphics_mhz = none;
  clock_memory_mhz = none;
  fan0_rpm = none;
  fan0_pct = none;
}

upsert_collector_health_direct-Single_example :
    Single {D = ℕ}
      (upsert_collector_health_direct fails_late
        (codes "pc")
        (codes "ollama")
        (codes "runtime")
        (codes "unreachable")
        (pos 7)
        (some (codes "refused")))
      (put_collector (
        report
          (codes "pc")
          (codes "ollama")
          (codes "runtime")
          (codes "unreachable")
          (pos 7)
          (some (codes "refused"))))
upsert_collector_health_direct-Single_example =
    upsert_collector_health_direct-Single fails_late (codes "pc") (codes "ollama") (codes "runtime")
      (codes "unreachable") (pos 7) (some (codes "refused"))

-- The sender's machine, seen before.
abbrev known : MachineRow
known = record {
  machine_id = codes "pc";
  hostname = none;
  display_name = none;
  first_seen_utc_ms = pos 5;
  last_seen_utc_ms = pos 9;
  extra_json = none;
}

abbrev known_rows : Db ℕ
known_rows = record no_rows { machine_catalog = known ∷ [] }

known_found :
    find_row machine_key (envelope_of batch).machine_id known_rows.machine_catalog ≡ some known
unfolding find_row text_eq
known_found = refl

abbrev known_conn : Conn ℕ
known_conn = record closed { db = known_rows }

persist-Continues_example :
    (new : MachineRow) × (find_row machine_key
        (envelope_of batch).machine_id
        (persist fails_never batch known_conn).1.db.machine_catalog
      ≡ some new)
    × Continues known batch new
persist-Continues_example =
    persist-Continues fails_never batch known_conn known refl
      (persist-succeeds fails_never (λ n. refl) batch known_conn refl) known_found
