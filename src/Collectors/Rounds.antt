-- ===== src/Collectors/Rounds.antt =====
-- What a round of the direct GPU collector stores.
use capacity_agent.Base.{
  ℕ, ◌<◌, ◌^◌, ◌≡◌, refl, ap, ◌∙◌, Bool, false, none, some, List, [], ◌∷◌, Text, codes, arith,
}
use capacity_agent.Base.Int.{ℤ}
use capacity_agent.Base.Range.{Within}
use capacity_agent.Base.Double.{Doubles}
use capacity_agent.Store.Tables.{GpuRow, Db}
use capacity_agent.Store.Connection.{Conn}
use capacity_agent.Store.Writes.{insert_gpu_sample}
use capacity_agent.Store.Bindings.{GpuSample}
use capacity_agent.Store.Atomic.{each}
use capacity_agent.Store.Effects.{put_collector}
use capacity_agent.Store.Healthy.{Sure, both-Sure, run_statement-Sure, opens}
use capacity_agent.Store.Direct.{put_gpu, row_of_gpu, report, insert_gpu_sample-Single}
use capacity_agent.Gpu.Snapshot.{GpuSnapshot}
use capacity_agent.Collectors.Reports.{db-report}
use capacity_agent.Collectors.{vram_bytes, gpu_sample_of, insert_all, poll_round}

-- The bytes of a memory size in MB, an `unsigned int`, are at most 2 ^ 52, so that neither the product
-- in `std::int64_t` nor its reading as `double` loses anything.
vram_bytes-Within :
    (mb : ℕ) (bytes : ℤ) → mb < 2 ^ 32 → vram_bytes mb ≡ some bytes → Within (2 ^ 52) bytes
unfolding vram_bytes
vram_bytes-Within mb bytes h e = ground arith

-- The rows of a round, all of the same time.
module _ (d : Doubles) (machine_id : Text) (infos : List Text) (now : ℤ) where
  abbrev pub row_of : GpuSnapshot d.Double → GpuRow d.Double
  row_of snap = row_of_gpu (gpu_sample_of d machine_id infos now snap)

  abbrev pub put_snapshot : GpuSnapshot d.Double → Db d.Double → Db d.Double
  put_snapshot snap = put_gpu (row_of snap)

module _ (d : Doubles) (fails : ℕ → Bool) (healthy : (n : ℕ) → fails n ≡ false) (machine_id : Text)
    (infos : List Text) (now : ℤ) where
  insert-Sure : (g : GpuSample d.Double) → Sure (insert_gpu_sample fails g)
  unfolding insert_gpu_sample
  insert-Sure g =
      both-Sure _ _ (record { succeeds = λ c. (opens fails healthy c).0 })
        (run_statement-Sure fails healthy _ _)

  db-insert_all :
      (snaps : List (GpuSnapshot d.Double)) (c : Conn d.Double)
      → (insert_all d fails machine_id infos now snaps c).db
        ≡ each (put_snapshot d machine_id infos now) snaps c.db
  unfolding insert_all
  db-insert_all [] c = refl
  db-insert_all (snap ∷ snaps) c =
      let g = gpu_sample_of d machine_id infos now snap in
      db-insert_all snaps (insert_gpu_sample fails g c).1
      ∙ ap (each (put_snapshot d machine_id infos now) snaps)
          ((insert_gpu_sample-Single fails g).done c ((insert-Sure g).succeeds c))

  -- If no call of SQLite fails, then a round stores the row of each snapshot, all with the time of the
  -- round, and then reports that the collector is well, with that same time.
  pub db-poll_round :
      (snaps : List (GpuSnapshot d.Double)) (c : Conn d.Double)
      → (poll_round d fails machine_id infos now snaps c).db
        ≡ put_collector
            (report machine_id (codes "direct_gpu") (codes "gpu_poller") (codes "ok") now none)
            (each (put_snapshot d machine_id infos now) snaps c.db)
  unfolding poll_round
  db-poll_round snaps c =
      let after = insert_all d fails machine_id infos now snaps c in
      db-report fails healthy machine_id (codes "direct_gpu") (codes "gpu_poller") (codes "ok") now
        none after
      ∙ ap (put_collector _) (db-insert_all snaps c)
