-- ===== src/Examples/Latest.antt =====
-- Rounds of the GPU collector over rows of an earlier one.
use capacity_agent.Base.{ℕ, ◌≡◌, refl, true, List, [], ◌∷◌, map, codes, text_eq, arith}
use capacity_agent.Base.Int.{ℤ, pos}
use capacity_agent.Store.Connection.{Conn}
use capacity_agent.Store.Rows.{gpu_snapshot_row}
use capacity_agent.Store.Snapshot.{query_latest_snapshot}
use capacity_agent.Store.LatestGpus.{AllOlder}
use capacity_agent.Gpu.Reader.{Times}
use capacity_agent.Collectors.{gpu_sample_of}
use capacity_agent.Collectors.Rounds.{row_of}
use capacity_agent.Collectors.Loops.{
  Lap, Polled, nanoseconds, poll_loop, samples_of, round, gpu_names,
}
use capacity_agent.Collectors.Loops.Cadence.{poll_loop-Spaced}
use capacity_agent.Collectors.Loops.Fresh.{query_latest_snapshot-poll_loop}
use capacity_agent.Gpu.Samples.Spacing.{Spaced}
use capacity_agent.Examples.Answers.{naturals}
use capacity_agent.Examples.Tables.{no_rows, closed}
use capacity_agent.Examples.Gpus.{reader, at_start}
use capacity_agent.Examples.Polls.{snapshot, fails_never, fails_never-healthy}

-- The row of an earlier round, and that of a later round of another machine.
abbrev filled : Conn ℕ
filled = record closed {
  db = record no_rows {
    gpu_samples =
        row_of naturals (codes "pc") [] (pos 7) snapshot
        ∷ row_of naturals (codes "other") [] (pos 9) snapshot
        ∷ [];
  };
}

abbrev times : ℕ → Times
times i = at_start

all_older : AllOlder (codes "pc") (pos 8) filled.db.gpu_samples
unfolding gpu_sample_of text_eq
all_older = (λ _. refl, (λ e. cc, tt))

-- Laps of 500 ms, of which the work takes 20 ms.
abbrev lap : ℤ → Lap
lap now = record { running = true; times = times; now_ms = now; elapsed = 20000000; late = 1000 }

abbrev two_laps : List Lap
two_laps = lap (pos 8) ∷ lap (pos 9) ∷ []

abbrev after_two : Polled ℕ
after_two =
    poll_loop naturals fails_never (codes "pc") (nanoseconds 500) 500000000 two_laps reader filled

query_latest_snapshot-poll_loop_example :
    (query_latest_snapshot naturals
      (codes "pc")
      (round naturals fails_never
        (codes "pc")
        (lap (pos 10))
        after_two.reader
        after_two.conn).db).gpus
    ≡ map gpu_snapshot_row (
        map
          (row_of naturals
            (codes "pc")
            (gpu_names naturals fails_never
              (codes "pc")
              (samples_of naturals fails_never (codes "pc") (lap (pos 10)) after_two.reader).1)
            (pos 10))
          (samples_of naturals fails_never (codes "pc") (lap (pos 10)) after_two.reader).0)
query_latest_snapshot-poll_loop_example =
    query_latest_snapshot-poll_loop naturals fails_never fails_never-healthy (codes "pc")
      (nanoseconds 500) 500000000 two_laps (lap (pos 10)) reader filled refl (omega arith)
      (refl, (refl, tt)) all_older

two_starts : after_two.starts ≡ 500000000 ∷ 1000001000 ∷ []
unfolding poll_loop
two_starts = refl

poll_loop-Spaced_example : Spaced (nanoseconds 500) 0 after_two.starts
poll_loop-Spaced_example =
    poll_loop-Spaced naturals fails_never (codes "pc") (nanoseconds 500) 0 500000000 two_laps reader
      filled (omega arith)
