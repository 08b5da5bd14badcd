-- ===== src/Collectors/Loops/Fresh.antt =====
-- What `QueryLatestSnapshot` gives after `DirectGpuCollector::PollLoop` has run for a while.
use mathlib.Core.Path.{subst}
use capacity_agent.Base.{
  ℕ, ◌<◌, ◌≡◌, refl, ◌∙◌, Bool, true, false, Bool-cases, inl, inr, List, [], ◌∷◌, map, Text, arith,
}
use capacity_agent.Base.Int.{ℤ, ltb_ℤ, ◌≤ℤ◌}
use capacity_agent.Base.Double.{Doubles}
use capacity_agent.Store.Tables.{GpuRow}
use capacity_agent.Store.Connection.{Conn}
use capacity_agent.Store.Rows.{gpu_snapshot_row}
use capacity_agent.Store.Snapshot.{query_latest_snapshot}
use capacity_agent.Store.Queries.{select}
use capacity_agent.Store.LatestGpus.{
  of_machine, AllOlder, NoneLater, AllOlder-NoneLater, NoneLater-put_all,
}
use capacity_agent.Gpu.Discovery.{gpu_count}
use capacity_agent.Gpu.Reader.{GpuSampleMode, GpuSensorReader}
use capacity_agent.Gpu.Reader.Counts.{sample_all-keeps}
use capacity_agent.Collectors.Rounds.{row_of}
use capacity_agent.Collectors.Latest.{
  AllNew-map, gpu_samples-poll_round, query_latest_snapshot-poll_round,
}
use capacity_agent.Collectors.Loops.{Lap, poll_loop, samples_of, round, gpu_names}

-- The time of the first lap, or `now` if there is none.
abbrev pub next_time : List Lap → ℤ → ℤ
next_time [] now = now
next_time (lap ∷ laps) now = lap.now_ms

-- The times of the laps ascend, and `now` is later than all of them.
abbrev pub InOrder : List Lap → ℤ → Type 0
InOrder [] now = Unit {0}
InOrder (lap ∷ laps) now = (ltb_ℤ lap.now_ms (next_time laps now) ≡ true) × InOrder laps now

next_time_le : (laps : List Lap) (now : ℤ) → InOrder laps now → next_time laps now ≤ℤ now
next_time_le [] now h = omega arith
next_time_le (lap ∷ laps) now (l, h) = let le = next_time_le laps now h in ground arith

module _ {D : Type 0} (machine_id : Text) (m now : ℤ) where
  AllOlder-mono :
      (rows : List (GpuRow D))
      → m ≤ℤ now
      → AllOlder machine_id m rows
      → AllOlder machine_id now rows
  AllOlder-mono [] l h = tt
  AllOlder-mono (row ∷ rows) l (o, h) =
      (λ e. let older = o e in ground arith, AllOlder-mono rows l h)

  NoneLater-AllOlder :
      (rows : List (GpuRow D))
      → ltb_ℤ m now ≡ true
      → NoneLater m (select (of_machine machine_id) rows)
      → AllOlder machine_id now rows
  NoneLater-AllOlder [] l h = tt
  NoneLater-AllOlder (row ∷ rows) l h = elim (Bool-cases (of_machine machine_id row)) [
    | inl e ↦
        let at : select (of_machine machine_id) (row ∷ rows)
            ≡ row ∷ select (of_machine machine_id) rows =
          rw e refl in
        let k : NoneLater m (row ∷ select (of_machine machine_id) rows) =
          subst (NoneLater m) at h in
        let le = k.0 in (λ f. ground arith, NoneLater-AllOlder rows l k.1)
    | inr e ↦
        let at : select (of_machine machine_id) (row ∷ rows) ≡ select (of_machine machine_id) rows =
          rw e refl in
        (λ f. cc, NoneLater-AllOlder rows l (subst (NoneLater m) at h))
  ]

module _ (d : Doubles) (fails : ℕ → Bool) (healthy : (n : ℕ) → fails n ≡ false)
    (machine_id : Text) where
  AllOlder-round :
      (lap : Lap) (now : ℤ) (r : GpuSensorReader) (c : Conn d.Double)
      → ltb_ℤ lap.now_ms now ≡ true
      → AllOlder machine_id lap.now_ms c.db.gpu_samples
      → AllOlder machine_id now (round d fails machine_id lap r c).db.gpu_samples
  AllOlder-round lap now r c l h =
      let s = samples_of d fails machine_id lap r in
      let infos = gpu_names d fails machine_id s.1 in
      let e = gpu_samples-poll_round d fails healthy machine_id infos lap.now_ms s.0 c in
      rw e (
        NoneLater-AllOlder machine_id lap.now_ms now _ l (
          NoneLater-put_all machine_id lap.now_ms _ c.db.gpu_samples
            (AllNew-map d machine_id infos lap.now_ms s.0)
            (AllOlder-NoneLater machine_id lap.now_ms c.db.gpu_samples h)))

  AllOlder-poll_loop :
      (target : ℕ) (laps : List Lap) (start : ℕ) (now : ℤ) (r : GpuSensorReader) (c : Conn d.Double)
      → InOrder laps now
      → AllOlder machine_id (next_time laps now) c.db.gpu_samples
      → AllOlder machine_id now
          (poll_loop d fails machine_id target start laps r c).conn.db.gpu_samples
  unfolding poll_loop
  AllOlder-poll_loop target [] start now r c o h = h
  AllOlder-poll_loop target (lap ∷ laps) start now r c (l, o) h = elim (Bool-cases lap.running) [
    | inl e ↦ rw e (AllOlder-poll_loop target laps _ now _ _ o (AllOlder-round lap _ r c l h))
    | inr e ↦ rw e (AllOlder-mono machine_id _ now _ (next_time_le (lap ∷ laps) now (l, o)) h)
  ]

  poll_loop-keeps :
      (target : ℕ) (laps : List Lap) (start : ℕ) (r : GpuSensorReader) (c : Conn d.Double)
      → ((poll_loop d fails machine_id target start laps r c).reader.initialized ≡ r.initialized)
        × (gpu_count (poll_loop d fails machine_id target start laps r c).reader.probe
            ≡ gpu_count r.probe)
  unfolding poll_loop
  poll_loop-keeps target [] start r c = (refl, refl)
  poll_loop-keeps target (lap ∷ laps) start r c =
      let k = sample_all-keeps d lap.times GpuSampleMode.full r in
      elim (Bool-cases lap.running) [
        | inl e ↦
            let rest = poll_loop-keeps target laps _ (samples_of d fails machine_id lap r).1 _ in
            rw e (rest.0 ∙ k.0, rest.1 ∙ k.1)
        | inr e ↦ rw e (refl, refl)
      ]

  -- If no call of SQLite fails, the reader is initialised and has a GPU, no GPU row of the machine is as
  -- late as the first round, and the clock goes forward from round to round, then after any number of
  -- rounds and one more, the latest snapshot has the GPUs as that last round sampled them, each once, in the
  -- reader's order: no row of an earlier round is left in it.
  pub query_latest_snapshot-poll_loop :
      (target start : ℕ) (laps : List Lap) (last : Lap) (r : GpuSensorReader) (c : Conn d.Double)
      → r.initialized ≡ true
      → 0 < gpu_count r.probe
      → InOrder laps last.now_ms
      → AllOlder machine_id (next_time laps last.now_ms) c.db.gpu_samples
      → let p = poll_loop d fails machine_id target start laps r c in
        let s = samples_of d fails machine_id last p.reader in
        (query_latest_snapshot d machine_id (round d fails machine_id last p.reader p.conn).db).gpus
        ≡ map gpu_snapshot_row
            (map (row_of d machine_id (gpu_names d fails machine_id s.1) last.now_ms) s.0)
  query_latest_snapshot-poll_loop target start laps last r c i n o h =
      let p = poll_loop d fails machine_id target start laps r c in
      let k = poll_loop-keeps target laps start r c in
      query_latest_snapshot-poll_round d fails healthy machine_id _ last.now_ms last.times p.reader
        p.conn (k.0 ∙ i) (rw (k.1) n) (AllOlder-poll_loop target laps start last.now_ms r c o h)
