-- ===== src/Collectors/Latest.antt =====
-- The direct GPU collector and the queries together: `DirectGpuCollector::PollLoop` of
-- apps/host_agent/src/collectors/direct_gpu_collector.cpp, from the reader's `sample_all` to what
-- `QueryLatestSnapshot` of storage/sqlite_store.cpp gives afterwards.
use capacity_agent.Base.{
  ℕ, suc, ◌<◌, ◌≡◌, refl, sym, ap, ◌∙◌, Bool, true, false, Bool-cases, inl, inr, List, [], ◌∷◌,
  ◌++◌, map, length, drop, Text, codes, text_eq, text_eq_iff, text_eq_refl, arith,
}
use capacity_agent.Base.Int.{ℤ, pos}
use capacity_agent.Base.Double.{Doubles}
use capacity_agent.Store.Tables.{GpuRow, Db, int_eq}
use capacity_agent.Store.Statements.{same_gpu}
use capacity_agent.Store.Connection.{Conn}
use capacity_agent.Store.Atomic.{each}
use capacity_agent.Store.Effects.{put_collector}
use capacity_agent.Store.Direct.{put_gpu}
use capacity_agent.Store.Json.{to_string}
use capacity_agent.Store.Json.Digits.{to_string-injective}
use capacity_agent.Store.Rows.{gpu_snapshot_row}
use capacity_agent.Store.Queries.{query_latest_gpus}
use capacity_agent.Store.Snapshot.{query_latest_snapshot}
use capacity_agent.Store.LatestGpus.{put_all, AllOthers, Distinct, AllNew, AllOlder}
use capacity_agent.Store.LatestGpus.Query.{AllAbove, Ascends, latest-put_all}
use capacity_agent.Gpu.Snapshot.{GpuSnapshot}
use capacity_agent.Gpu.Discovery.{gpu_count}
use capacity_agent.Gpu.Reader.{GpuSampleMode, GpuSensorReader, Times, sample_all}
use capacity_agent.Gpu.Reader.Indices.{Numbered, sample_all-Numbered, length-sample_all}
use capacity_agent.Collectors.{gpu_sample_of, poll_round}
use capacity_agent.Collectors.Rounds.{row_of, put_snapshot, db-poll_round}

abbrev uid_of : ℕ → Text
uid_of i = codes "nvapi:" ++ to_string (pos i)

uid_of-injective : (i j : ℕ) → uid_of i ≡ uid_of j → i ≡ j
uid_of-injective i j e = to_string-injective i j (ap (drop 6) e)

-- Rows of the GPUs before `i`.
abbrev Before : {D : Type 0} → ℕ → List (GpuRow D) → Type 0
Before i [] = Unit {0}
Before i (row ∷ rows) = ((j : ℕ) × (j < i) × (row.gpu_uid ≡ uid_of j)) × Before i rows

Before-suc : {D : Type 0} (i : ℕ) (rows : List (GpuRow D)) → Before i rows → Before (suc i) rows
Before-suc i [] h = tt
Before-suc i (row ∷ rows) ((j, l, e), h) = ((j, omega arith, e), Before-suc i rows h)

Before-append :
    {D : Type 0} (i : ℕ) (rows : List (GpuRow D)) (new : GpuRow D)
    → Before i rows
    → new.gpu_uid ≡ uid_of i
    → Before (suc i) (rows ++ new ∷ [])
Before-append i [] new h e = ((i, omega arith, e), tt)
Before-append i (row ∷ rows) new ((j, l, u), h) e =
    ((j, omega arith, u), Before-append i rows new h e)

other_uid : (i j : ℕ) (s t : Text) → s ≡ uid_of j → t ≡ uid_of i → j < i → text_eq s t ≡ false
other_uid i j s t e f l = elim (Bool-cases (text_eq s t)) [
  | inl y ↦ let same = uid_of-injective j i (sym e ∙ (text_eq_iff s t).0 y ∙ f) in ground arith
  | inr n ↦ n
]

Before-AllOthers :
    {D : Type 0} (i : ℕ) (rows : List (GpuRow D)) (new : GpuRow D)
    → Before i rows
    → new.gpu_uid ≡ uid_of i
    → AllOthers new rows
unfolding same_gpu
Before-AllOthers i [] new h e = tt
Before-AllOthers i (row ∷ rows) new ((j, l, u), h) e = (
  (let other = other_uid i j row.gpu_uid new.gpu_uid u e l in ground arith),
  Before-AllOthers i rows new h e,
)

module _ (d : Doubles) (machine_id : Text) (infos : List Text) (now : ℤ) where
  uid-row_of :
      (i : ℕ) (snap : GpuSnapshot d.Double)
      → snap.gpu_index ≡ pos i
      → (row_of d machine_id infos now snap).gpu_uid ≡ uid_of i
  unfolding gpu_sample_of
  uid-row_of i snap e = rw e refl

  Distinct-map :
      (i : ℕ) (snaps : List (GpuSnapshot d.Double)) (rows : List (GpuRow d.Double))
      → Before i rows
      → Numbered i snaps
      → Distinct rows (map (row_of d machine_id infos now) snaps)
  Distinct-map i [] rows b h = tt
  Distinct-map i (snap ∷ snaps) rows b (e, h) =
      let u = uid-row_of i snap e in
      (
        Before-AllOthers i rows (row_of d machine_id infos now snap) b u,
        Distinct-map (suc i) snaps (rows ++ row_of d machine_id infos now snap ∷ [])
            (Before-append i rows (row_of d machine_id infos now snap) b u) h,
      )

  pub AllNew-map :
      (snaps : List (GpuSnapshot d.Double))
      → AllNew machine_id now (map (row_of d machine_id infos now) snaps)
  unfolding gpu_sample_of int_eq
  AllNew-map [] = tt
  AllNew-map (snap ∷ snaps) = (text_eq_refl machine_id, ground arith, AllNew-map snaps)

  AllAbove-map :
      (i j : ℕ) (snap : GpuSnapshot d.Double) (snaps : List (GpuSnapshot d.Double))
      → i < j
      → snap.gpu_index ≡ pos i
      → Numbered j snaps
      → AllAbove (row_of d machine_id infos now snap) (map (row_of d machine_id infos now) snaps)
  unfolding gpu_sample_of
  AllAbove-map i j snap [] l e h = tt
  AllAbove-map i j snap (next ∷ snaps) l e (f, h) =
      (rw (e, f) (ground arith), AllAbove-map i (suc j) snap snaps (omega arith) e h)

  Ascends-map :
      (i : ℕ) (snaps : List (GpuSnapshot d.Double))
      → Numbered i snaps
      → Ascends (map (row_of d machine_id infos now) snaps)
  Ascends-map i [] h = tt
  Ascends-map i (snap ∷ snaps) (e, h) =
      (AllAbove-map i (suc i) snap snaps (omega arith) e h, Ascends-map (suc i) snaps h)

  gpu_samples-each :
      (snaps : List (GpuSnapshot d.Double)) (db : Db d.Double)
      → (each (put_snapshot d machine_id infos now) snaps db).gpu_samples
        ≡ put_all (map (row_of d machine_id infos now) snaps) db.gpu_samples
  unfolding put_gpu
  gpu_samples-each [] db = refl
  gpu_samples-each (snap ∷ snaps) db =
      gpu_samples-each snaps (put_snapshot d machine_id infos now snap db)

module _ (d : Doubles) (fails : ℕ → Bool) (healthy : (n : ℕ) → fails n ≡ false) (machine_id : Text)
    (infos : List Text) (now : ℤ) where
  pub gpu_samples-poll_round :
      (snaps : List (GpuSnapshot d.Double)) (c : Conn d.Double)
      → (poll_round d fails machine_id infos now snaps c).db.gpu_samples
        ≡ put_all (map (row_of d machine_id infos now) snaps) c.db.gpu_samples
  unfolding put_collector
  gpu_samples-poll_round snaps c =
      ap (λ (db : Db d.Double). db.gpu_samples)
        (db-poll_round d fails healthy machine_id infos now snaps c)
      ∙ gpu_samples-each d machine_id infos now snaps c.db

  query-poll_round :
      (snap : GpuSnapshot d.Double) (snaps : List (GpuSnapshot d.Double)) (c : Conn d.Double)
      → AllOlder machine_id now c.db.gpu_samples
      → Numbered 0 (snap ∷ snaps)
      → query_latest_gpus machine_id (poll_round d fails machine_id infos now (snap ∷ snaps) c).db
        ≡ map (row_of d machine_id infos now) (snap ∷ snaps)
  query-poll_round snap snaps c o h =
      latest-put_all machine_id now _ c.db.gpu_samples _ _ o
        (AllNew-map d machine_id infos now (snap ∷ snaps))
        (Distinct-map d machine_id infos now 0 (snap ∷ snaps) [] tt h)
        (Ascends-map d machine_id infos now 0 (snap ∷ snaps) h)
        (gpu_samples-poll_round (snap ∷ snaps) c)

  latest-poll_round :
      (snaps : List (GpuSnapshot d.Double)) (c : Conn d.Double)
      → AllOlder machine_id now c.db.gpu_samples
      → Numbered 0 snaps
      → 0 < length snaps
      → query_latest_gpus machine_id (poll_round d fails machine_id infos now snaps c).db
        ≡ map (row_of d machine_id infos now) snaps
  latest-poll_round [] c o h n = ground arith
  latest-poll_round (snap ∷ snaps) c o h n = query-poll_round snap snaps c o h

  -- If no call of SQLite fails, the reader is initialised and has a GPU, and no GPU row of the machine is
  -- as late as the time of the round, then after a round of the collector the latest snapshot has the GPUs
  -- that the reader has just sampled, each once, with the values of its sample, in the reader's order.
  pub query_latest_snapshot-poll_round :
      (times : ℕ → Times) (r : GpuSensorReader) (c : Conn d.Double)
      → r.initialized ≡ true
      → 0 < gpu_count r.probe
      → AllOlder machine_id now c.db.gpu_samples
      → (query_latest_snapshot d machine_id
          (poll_round d fails machine_id infos now
            (sample_all d times GpuSampleMode.full r).0
            c).db).gpus
        ≡ map gpu_snapshot_row
            (map (row_of d machine_id infos now) (sample_all d times GpuSampleMode.full r).0)
  unfolding query_latest_snapshot
  query_latest_snapshot-poll_round times r c i n o =
      let h = sample_all-Numbered d times GpuSampleMode.full r in
      let l = length-sample_all d times GpuSampleMode.full r i in
      ap (map gpu_snapshot_row) (latest-poll_round _ c o h (rw l n))
