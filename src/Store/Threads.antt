-- ===== src/Store/Threads.antt =====
-- The threads of apps/host_agent that share the one connection of the store: the pipe's thread, which
-- handles messages in transactions, and the collectors' threads, whose writes open none. Nothing in
-- sqlite_store.cpp keeps them apart. SQLite makes one call after the other (SQLITE_OPEN_FULLMUTEX), so a
-- turn of a thread is one statement, and the turns come in any order.
pub mod Bodies
pub mod Survivors
use capacity_agent.Base.{ℕ, Bool, true, false, Option, none, some, List, [], ◌∷◌, ◌++◌}
use capacity_agent.Store.Tables.{Params, Db}
use capacity_agent.Store.Statements.{Sql, execute}
use capacity_agent.Store.Connection.{
  Conn, Action, both, bound, run_statement, open_if_needed, begin, commit, rollback,
}

-- An INSERT with its bindings.
pub record Insert (D : Type 0) : Type 0 where
  pub sql : Sql
  pub bindings : Params D

-- Where the pipe's thread stands: between two messages, before the rest of a message's statements, or
-- before the ROLLBACK of a message that failed.
pub data Phase (D : Type 0) : Type 0 where
  waiting : Phase D
  inside : List (Insert D) → Phase D
  rolling : Phase D

pub record System (D : Type 0) : Type 0 where
  pub conn : Conn D
  pub phase : Phase D

-- A turn: of the pipe's thread, with the statements of the message that it takes if it waits, or of a
-- collector's thread, with the row that it writes.
pub data Turn (D : Type 0) : Type 0 where
  pipe : List (Insert D) → Turn D
  collector : Insert D → Turn D

-- What a turn achieves.
pub data Event (D : Type 0) : Type 0 where
  began : Event D
  wrote : Insert D → Event D
  committed : Event D
  rolled_back : Event D

module _ {D : Type 0} (fails : ℕ → Bool) where
  unfoldable pub run_insert : Insert D → Action D
  run_insert s = run_statement fails s.sql s.bindings

  -- The phase and the events by the result of a call.
  abbrev pub after : Bool × Conn D → Phase D × List (Event D) → Phase D → System D × List (Event D)
  after (true, c) good bad = (record { conn = c; phase = good.0 }, good.1)
  after (false, c) good bad = (record { conn = c; phase = bad }, [])

  -- The ROLLBACK has been made if no transaction is open behind it.
  abbrev pub rolled : Option (Db D) → List (Event D)
  rolled none = rolled_back ∷ []
  rolled (some s) = []

  unfoldable pub pipe_turn : List (Insert D) → Phase D → Conn D → System D × List (Event D)
  unfolding run_insert
  pipe_turn body waiting c =
      after (both (open_if_needed fails) (begin fails) c) (inside body, began ∷ []) waiting
  pipe_turn body (inside []) c = after (commit fails c) (waiting, committed ∷ []) rolling
  pipe_turn body (inside (s ∷ rest)) c = after (run_insert s c) (inside rest, wrote s ∷ []) rolling
  pipe_turn body rolling c =
      let c' = (rollback fails c).1 in (record { conn = c'; phase = waiting }, rolled c'.saved)

  unfoldable pub turn : Turn D → System D → System D × List (Event D)
  unfolding pipe_turn run_insert
  turn (pipe body) s = pipe_turn body s.phase s.conn
  turn (collector i) s =
      after (both (open_if_needed fails) (run_insert i) s.conn) (s.phase, wrote i ∷ []) s.phase

  unfoldable pub run_turns : List (Turn D) → System D → System D × List (Event D)
  unfolding turn
  run_turns [] s = (s, [])
  run_turns (t ∷ turns) s =
      let (s1, events) = turn t s in
      let (s2, later_events) = run_turns turns s1 in (s2, events ++ later_events)

-- What an INSERT does to the tables.
abbrev pub effect_of : {D : Type 0} → Insert D → Db D → Db D
effect_of i = execute i.sql (bound i.bindings [])
