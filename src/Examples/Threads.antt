-- ===== src/Examples/Threads.antt =====
-- A message that fails while a collector writes.
use capacity_agent.Base.{ℕ, ◌≡◌, refl, ◌==◌, Bool, List, [], ◌∷◌}
use capacity_agent.Store.Statements.{insert_gpu_samples}
use capacity_agent.Store.Bindings.{gpu_bindings}
use capacity_agent.Store.Connection.{both, open_if_needed, begin, run_statement, rollback}
use capacity_agent.Store.Transaction.{durable}
use capacity_agent.Store.Threads.{
  Insert, System, waiting, Turn, pipe, collector, began, wrote, rolled_back, run_turns,
}
use capacity_agent.Store.Threads.Survivors.{survivors, replay, durable-run_turns}
use capacity_agent.Store.Threads.Bodies.{body}
use capacity_agent.Examples.Tables.{no_rows, closed, batch, gpu_sample}

abbrev gpu_insert : Insert ℕ
gpu_insert = record { sql = insert_gpu_samples; bindings = gpu_bindings gpu_sample }

abbrev at_rest : System ℕ
at_rest = record { conn = closed; phase = waiting }

-- BEGIN, the row of the GPU collector, a statement of the message that fails, and ROLLBACK.
abbrev turns : List (Turn ℕ)
turns = pipe (body batch) ∷ collector gpu_insert ∷ pipe [] ∷ pipe [] ∷ []

-- The call after those of the row fails.
abbrev fails_then : ℕ → Bool
fails_then n = n == 23

durable-run_turns_example :
    durable (run_turns fails_then turns at_rest).0.conn
    ≡ replay (survivors (run_turns fails_then turns at_rest).1) no_rows
durable-run_turns_example = durable-run_turns fails_then turns at_rest refl

row_is_acknowledged :
    (run_turns fails_then turns at_rest).1 ≡ began ∷ wrote gpu_insert ∷ rolled_back ∷ []
unfolding run_turns both open_if_needed begin run_statement gpu_bindings rollback
row_is_acknowledged = refl

row_is_lost : (durable (run_turns fails_then turns at_rest).0.conn).gpu_samples ≡ []
unfolding run_turns both open_if_needed begin run_statement gpu_bindings rollback
row_is_lost = refl
