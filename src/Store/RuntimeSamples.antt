-- ===== src/Store/RuntimeSamples.antt =====
-- `InsertOllamaRuntimeSample` of apps/host_agent/src/storage/sqlite_store.cpp.
use capacity_agent.Base.{ℕ, ◌≡◌, refl, Bool, []}
use capacity_agent.Store.Tables.{OllamaRow, Db, param, replace}
use capacity_agent.Store.Statements.{
  ollama_row, same_ollama, execute, insert_ollama_runtime_samples,
}
use capacity_agent.Store.Connection.{bound, open_if_needed}
use capacity_agent.Store.Writes.{insert_ollama_runtime_sample}
use capacity_agent.Store.Bindings.{OllamaSample, ollama_bindings}
use capacity_agent.Store.Persist.{opt_int}
use capacity_agent.Store.Direct.{Single, both-Single, open-Single, run_statement-Single, Single-eq}

-- The row of a sample, column by column.
abbrev pub row_of_ollama : OllamaSample → OllamaRow
row_of_ollama o = record {
  machine_id = o.machine_id;
  ts_utc_ms = o.ts_utc_ms;
  base_url = o.base_url;
  active_request_count = o.active_requests;
  queued_request_count = o.queued_requests;
  loaded_model_count = o.loaded_models;
  resident_vram_bytes = o.resident_vram_bytes;
  resident_ram_bytes = o.resident_ram_bytes;
}

ollama_row-bindings :
    (D : Type 0) (o : OllamaSample)
    → ollama_row {D = D} (bound (ollama_bindings o) []) ≡ row_of_ollama o
unfolding ollama_row bound ollama_bindings param
ollama_row-bindings D o =
    rw
      (
        opt_int D o.active_requests,
        opt_int D o.queued_requests,
        opt_int D o.loaded_models,
        opt_int D o.resident_vram_bytes,
        opt_int D o.resident_ram_bytes,
      )
      refl

unfoldable pub put_ollama : {D : Type 0} → OllamaRow → Db D → Db D
put_ollama row db = record db {
  ollama_runtime_samples = replace same_ollama row db.ollama_runtime_samples;
}

module _ {D : Type 0} (fails : ℕ → Bool) where
  ollama_effect :
      (o : OllamaSample) (db : Db D)
      → execute insert_ollama_runtime_samples (bound (ollama_bindings o) []) db
        ≡ put_ollama (row_of_ollama o) db
  unfolding execute put_ollama
  ollama_effect o db = rw (ollama_row-bindings D o) refl

  -- A sample of the runtime that is acknowledged is in its table, each argument in its column; one that is
  -- not changes no table.
  pub insert_ollama_runtime_sample-Single :
      (o : OllamaSample)
      → Single {D = D} (insert_ollama_runtime_sample fails o) (put_ollama (row_of_ollama o))
  unfolding insert_ollama_runtime_sample
  insert_ollama_runtime_sample-Single o =
      both-Single (open_if_needed fails) _ _ (open-Single fails) (
        Single-eq fails _ _ _ (ollama_effect o)
          (run_statement-Single fails insert_ollama_runtime_samples (ollama_bindings o)))
