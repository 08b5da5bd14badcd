-- ===== src/Service/Ingest.antt =====
-- The pipe's thread from the bytes of its clients to the tables: the lambda of `Service::Run` in
-- apps/host_agent/src/core/service.cpp, which hands the messages of `NamedPipeServer::Run` on.
use capacity_agent.Base.{ℕ, ◌≡◌, Bool, false, List, Text}
use capacity_agent.Bridge.Parser.{CJson}
use capacity_agent.Pipe.{Connection, run}
use capacity_agent.Pipe.Framing.{clients, all_messages, AllStreams, run-eq_all_messages}
use capacity_agent.Store.Tables.{Db}
use capacity_agent.Store.Connection.{Conn}
use capacity_agent.Store.Atomic.{each}
use capacity_agent.Store.Effects.{effect}
use capacity_agent.Service.{handle_all}
use capacity_agent.Service.Replay.{accepted, Holding, handle_all-eq_effects}

module _ {D : Type 0} (json : CJson D) (fails : ℕ → Bool) where
  unfoldable pub run_pipe : List Connection → Conn D → Conn D
  unfolding run handle_all
  run_pipe connections c = handle_all json fails (run connections).calls c

  -- If no call of SQLite fails, then after clients that came one after the other, the tables are those
  -- that the effects of the accepted messages of their streams make of the tables before, in order,
  -- however the bytes of each stream were cut into reads, none of them empty; and no transaction is open.
  pub run_pipe-eq_effects :
      ((n : ℕ) → fails n ≡ false)
      → (streams : List (List Text)) (db : Db D) (c : Conn D) → AllStreams streams
      → Holding db c
      → Holding
          (each effect (accepted json (all_messages streams)) db)
          (run_pipe (clients streams) c)
  unfolding run_pipe
  run_pipe-eq_effects healthy streams db c h o =
      rw (run-eq_all_messages streams h)
        (handle_all-eq_effects json fails healthy (all_messages streams) db c o)
