-- ===== src/Collectors/Reports.antt =====
-- What a report of a collector stores when SQLite answers.
use capacity_agent.Base.{ℕ, ◌≡◌, Bool, false, Option, Text}
use capacity_agent.Base.Int.{ℤ}
use capacity_agent.Store.Connection.{Conn}
use capacity_agent.Store.Writes.{upsert_collector, upsert_collector_health_direct}
use capacity_agent.Store.Effects.{put_collector}
use capacity_agent.Store.Healthy.{Sure, both-Sure, run_statement-Sure, opens}
use capacity_agent.Store.Direct.{report, upsert_collector_health_direct-Single}

module _ {D : Type 0} (fails : ℕ → Bool) (healthy : (n : ℕ) → fails n ≡ false)
    (machine_id source kind status : Text) (now : ℤ) (last_error : Option Text) where
  report-Sure :
      Sure {D = D}
        (upsert_collector_health_direct fails machine_id source kind status now last_error)
  unfolding upsert_collector_health_direct upsert_collector
  report-Sure =
      both-Sure _ _ (record { succeeds = λ c. (opens fails healthy c).0 })
        (run_statement-Sure fails healthy _ _)

  -- If no call of SQLite fails, then the report is merged into the row of the collector.
  pub db-report :
      (c : Conn D)
      → (upsert_collector_health_direct fails machine_id source kind status now last_error c).1.db
        ≡ put_collector (report machine_id source kind status now last_error) c.db
  db-report c =
      (upsert_collector_health_direct-Single fails machine_id source kind status now
          last_error).done
        c (report-Sure.succeeds c)
