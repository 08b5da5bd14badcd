-- ===== src/Store/Direct.antt =====
-- The writes of the collectors' threads in apps/host_agent/src/storage/sqlite_store.cpp, outside any
-- transaction of their own.
use capacity_agent.Base.{
  ℕ, ◌≡◌, refl, ap, ◌∙◌, inl, inr, Bool, true, false, Bool-cases, Option, none, some, [], ◌∷◌, Text,
  arith,
}
use capacity_agent.Base.Int.{ℤ}
use capacity_agent.Store.Json.{collector_id}
use capacity_agent.Store.Tables.{Params, GpuRow, CollectorRow, Db, param, replace}
use capacity_agent.Store.Statements.{
  Sql, gpu_row, same_gpu, execute, insert_gpu_samples, upsert_collector_health,
}
use capacity_agent.Store.Connection.{
  Conn, Action, failing, both, succeed, bound, call, bind_all, step_done, run_statement,
  open_if_needed,
}
use capacity_agent.Store.Writes.{
  insert_gpu_sample, upsert_collector, upsert_collector_health_direct,
}
use capacity_agent.Store.Bindings.{GpuSample, gpu_bindings}
use capacity_agent.Store.Atomic.{same, on_ok-true, on_ok-false}
use capacity_agent.Store.Effects.{put_collector}
use capacity_agent.Store.Persist.{opt_text, opt_int, opt_real, collector_effect}

-- An action that has its effect on the tables if it returns true, and none if it returns false, and
-- that opens and closes no transaction.
pub record Single {D : Type 0} (m : Action D) (eff : Db D → Db D) : Type 0 where
  pub saved : (c : Conn D) → (m c).1.saved ≡ c.saved
  pub done : (c : Conn D) → (m c).0 ≡ true → (m c).1.db ≡ eff c.db
  pub refused : (c : Conn D) → (m c).0 ≡ false → (m c).1.db ≡ c.db

module _ {D : Type 0} where
  pub both-Single :
      (a b : Action D) (eff : Db D → Db D) → Single a same → Single b eff → Single (both a b) eff
  unfolding both
  both-Single a b eff sa sb = record { saved = keep; done = finish; refused = refuse }
    where
      keep : (c : Conn D) → (both a b c).1.saved ≡ c.saved
      keep c = elim (Bool-cases (a c).0) [
        | inl h ↦ rw (on_ok-true b failing (a c) h) (sb.saved (a c).1 ∙ sa.saved c)
        | inr h ↦ rw (on_ok-false b failing (a c) h) (sa.saved c)
      ]

      finish : (c : Conn D) → (both a b c).0 ≡ true → (both a b c).1.db ≡ eff c.db
      finish c r = elim (Bool-cases (a c).0) [
        | inl h ↦
            rw (on_ok-true b failing (a c) h)
              (sb.done (a c).1 (rw (on_ok-true b failing (a c) h) at r) ∙ ap eff (sa.done c h))
        | inr h ↦ absurd (cc (rw (on_ok-false b failing (a c) h) at r))
      ]

      refuse : (c : Conn D) → (both a b c).0 ≡ false → (both a b c).1.db ≡ c.db
      refuse c r = elim (Bool-cases (a c).0) [
        | inl h ↦
            rw (on_ok-true b failing (a c) h)
              (sb.refused (a c).1 (rw (on_ok-true b failing (a c) h) at r) ∙ sa.done c h)
        | inr h ↦ rw (on_ok-false b failing (a c) h) (sa.refused c h)
      ]

module _ {D : Type 0} (fails : ℕ → Bool) where
  call-Single : Single (call {D = D} fails) same
  call-Single =
      unfold call in record { saved = λ c. refl; done = λ c h. refl; refused = λ c h. refl }

  bind_all-Single : (bs : Params D) → Single (bind_all fails bs) same
  unfolding bind_all succeed
  bind_all-Single [] = record { saved = λ c. refl; done = λ c h. refl; refused = λ c h. refl }
  bind_all-Single (b ∷ bs) =
      both-Single (call fails) (bind_all fails bs) same call-Single (bind_all-Single bs)

  step_done-Single : (sql : Sql) (ps : Params D) → Single (step_done fails sql ps) (execute sql ps)
  unfolding step_done call
  step_done-Single sql ps = record {
    saved = λ c. ground arith;
    done = λ c h. ground arith;
    refused = λ c h. ground arith;
  }

  pub run_statement-Single :
      (sql : Sql) (bs : Params D) → Single (run_statement fails sql bs) (execute sql (bound bs []))
  unfolding run_statement
  run_statement-Single sql bs = both-Single (call fails) _ _ call-Single (
      both-Single (bind_all fails bs) _ _ (bind_all-Single bs) (step_done-Single sql (bound bs [])))

  pub open-Single : Single (open_if_needed {D = D} fails) same
  unfolding open_if_needed call
  open-Single = record {
    saved = λ c. ground arith;
    done = λ c h. ground arith;
    refused = λ c h. ground arith;
  }

  pub Single-eq :
      (m : Action D) (e f : Db D → Db D) → ((db : Db D) → e db ≡ f db) → Single m e → Single m f
  Single-eq m e f h l = record {
    saved = l.saved;
    done = λ c t. l.done c t ∙ h c.db;
    refused = l.refused;
  }

-- The row of a GPU sample, column by column.
abbrev pub row_of_gpu : {D : Type 0} → GpuSample D → GpuRow D
row_of_gpu g = record {
  machine_id = g.machine_id;
  gpu_uid = g.gpu_uid;
  gpu_index = g.gpu_index;
  ts_utc_ms = g.ts_utc_ms;
  gpu_name = g.gpu_name;
  backend = g.backend;
  core_c = g.core_c;
  hotspot_c = g.hotspot_c;
  mem_junction_c = g.mem_junction_c;
  util_gpu_pct = g.util_gpu_pct;
  util_mem_pct = g.util_mem_pct;
  power_w = g.power_w;
  vram_used_bytes = g.vram_used_bytes;
  vram_total_bytes = g.vram_total_bytes;
  clock_graphics_mhz = g.clock_graphics_mhz;
  clock_memory_mhz = g.clock_memory_mhz;
  fan0_rpm = g.fan0_rpm;
  fan0_pct = g.fan0_pct;
}

gpu_row-bindings :
    {D : Type 0} (g : GpuSample D) → gpu_row (bound (gpu_bindings g) []) ≡ row_of_gpu g
unfolding gpu_row bound gpu_bindings param
gpu_row-bindings {D} g =
    rw
      (
        opt_text D g.gpu_name,
        opt_real g.core_c,
        opt_real g.hotspot_c,
        opt_real g.mem_junction_c,
        opt_real g.util_gpu_pct,
        opt_real g.util_mem_pct,
        opt_real g.power_w,
        opt_int D g.vram_used_bytes,
        opt_int D g.vram_total_bytes,
        opt_int D g.clock_graphics_mhz,
        opt_int D g.clock_memory_mhz,
        opt_int D g.fan0_rpm,
        opt_real g.fan0_pct,
      )
      refl

unfoldable pub put_gpu : {D : Type 0} → GpuRow D → Db D → Db D
put_gpu row db = record db { gpu_samples = replace same_gpu row db.gpu_samples }

-- The row by which a collector reports its state.
abbrev pub report : Text → Text → Text → Text → ℤ → Option Text → CollectorRow
report machine_id source kind status now last_error = record {
  collector_id = collector_id machine_id source;
  machine_id = machine_id;
  source = source;
  collector_type = kind;
  status = status;
  last_hello_utc_ms = none;
  last_sample_utc_ms = some now;
  last_error = last_error;
  updated_utc_ms = now;
  extra_json = none;
}

module _ {D : Type 0} (fails : ℕ → Bool) where
  gpu_effect :
      (g : GpuSample D) (db : Db D)
      → execute insert_gpu_samples (bound (gpu_bindings g) []) db ≡ put_gpu (row_of_gpu g) db
  unfolding execute put_gpu
  gpu_effect g db = rw (gpu_row-bindings g) refl

  -- A GPU sample that is acknowledged is in its table, each argument in its column, in place of a row
  -- with the same machine, GPU and time; one that is not changes no table; and no transaction is opened
  -- or closed, whichever calls of SQLite fail.
  pub insert_gpu_sample-Single :
      (g : GpuSample D) → Single (insert_gpu_sample fails g) (put_gpu (row_of_gpu g))
  unfolding insert_gpu_sample
  insert_gpu_sample-Single g = both-Single (open_if_needed fails) _ _ (open-Single fails) (
      Single-eq fails _ _ _ (gpu_effect g)
        (run_statement-Single fails insert_gpu_samples (gpu_bindings g)))

  -- A report of a collector that is acknowledged is merged into its row of collector_health, with the
  -- present as the time of its last sample whatever its status is; one that is not changes no table.
  pub upsert_collector_health_direct-Single :
      (machine_id source kind status : Text) (now : ℤ) (last_error : Option Text)
      → Single {D = D}
          (upsert_collector_health_direct fails machine_id source kind status now last_error)
          (put_collector (report machine_id source kind status now last_error))
  unfolding upsert_collector_health_direct upsert_collector
  upsert_collector_health_direct-Single machine_id source kind status now last_error =
      both-Single (open_if_needed fails) _ _ (open-Single fails) (
        Single-eq fails _ _ _
          (collector_effect D (report machine_id source kind status now last_error))
          (run_statement-Single fails upsert_collector_health _))
