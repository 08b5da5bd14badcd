-- ===== src/Store/Connection.antt =====
-- A connection of apps/host_agent/src/storage/sqlite_store.cpp: the classes `Statement` and
-- `Transaction`, `OpenIfNeeded` and `Close`. SQLite itself is not modelled: `fails n` says whether the
-- n-th call of it goes wrong, for whatever reason, and is a parameter. A call that goes wrong
-- changes no table. While a transaction is open, `saved` holds the tables as they were at its start.
use capacity_agent.Base.{
  ℕ, suc, Bool, true, false, not, Option, none, some, List, [], ◌∷◌, if◌then◌else◌,
}
use capacity_agent.Store.Tables.{Params, Db}
use capacity_agent.Store.Statements.{Sql, execute}

pub record Conn (D : Type 0) : Type 0 where
  -- `db_ != nullptr`
  pub is_open : Bool
  -- Whether `sqlite_path_` has a parent directory.
  pub has_parent : Bool
  pub db : Db D
  pub saved : Option (Db D)
  pub calls : ℕ

-- A function that returns a Boolean and works on the connection.
abbrev pub Action : Type 0 → Type 0
Action D = Conn D → Bool × Conn D

-- What follows a call that went well, and what follows one that did not.
abbrev pub on_ok :
    {D : Type 0}
    → Bool × Conn D
    → (Conn D → Bool × Conn D)
    → (Conn D → Bool × Conn D)
    → Bool × Conn D
on_ok (true, c) next otherwise = next c
on_ok (false, c) next otherwise = otherwise c

abbrev pub failing : {D : Type 0} → Conn D → Bool × Conn D
failing c = (false, c)

module _ {D : Type 0} where
  -- `a && b`, and the early `return false` of `if (!a) return false; b`.
  unfoldable pub both : Action D → Action D → Action D
  both a b c = on_ok (a c) b failing

  unfoldable pub succeed : Action D
  succeed c = (true, c)

  -- `for (x : xs) if (!f(x)) return false;`
  unfoldable pub for_each : {A : Type 0} → (A → Action D) → List A → Action D
  unfolding both succeed
  for_each f [] = succeed
  for_each f (x ∷ xs) = both (f x) (for_each f xs)

-- The parameters of a statement once all its bindings are made, in their order.
unfoldable pub bound : {D : Type 0} → Params D → Params D → Params D
bound [] ps = ps
bound (b ∷ bs) ps = bound bs (b ∷ ps)

module _ {D : Type 0} (fails : ℕ → Bool) where
  -- One call of SQLite (or of the file system).
  unfoldable pub call : Action D
  call c = (not (fails c.calls), record c { calls = suc c.calls })

  unfoldable pub bind_all : Params D → Action D
  unfolding call both succeed
  bind_all [] = succeed
  bind_all (b ∷ bs) = both call (bind_all bs)

  -- `StepDone` of a statement with these parameters.
  unfoldable pub step_done : Sql → Params D → Action D
  unfolding call
  step_done sql ps c =
      on_ok (call c) (λ c'. (true, record c' { db = execute sql ps c'.db })) failing

  -- `Statement`, a chain of `Bind...` calls and `StepDone`: prepare, bind each, step.
  unfoldable pub run_statement : Sql → Params D → Action D
  unfolding call both bind_all step_done
  run_statement sql bindings =
      both call (both (bind_all bindings) (step_done sql (bound bindings [])))

  -- `OpenIfNeeded`; a database handle that `sqlite3_open_v2` left behind is closed again.
  unfoldable pub open_if_needed : Action D
  unfolding call both succeed
  open_if_needed c =
      if c.is_open
      then (true, c)
      else on_ok (if c.has_parent then call c else (true, c))
          (λ c1. on_ok (call c1) (λ c2. (true, record c2 { is_open = true })) failing) failing

  -- `Transaction::Begin`. SQLite refuses BEGIN while a transaction is open.
  unfoldable pub begin : Action D
  unfolding call
  begin c =
      on_ok (call c)
        (λ c'. elim c'.saved [
          | none ↦ (true, record c' { saved = some c'.db })
          | some s ↦ (false, c')
        ])
        failing

  unfoldable pub commit : Action D
  unfolding call
  commit c = on_ok (call c) (λ c'. (true, record c' { saved = none })) failing

  -- The ROLLBACK of `~Transaction`, whose result nobody reads: the function has failed already.
  unfoldable pub rollback : Action D
  unfolding call
  rollback c =
      on_ok (call c)
        (λ c'. elim c'.saved [
          | none ↦ (false, c')
          | some s ↦ (false, record c' { db = s; saved = none })
        ])
        failing

  -- The frame that the four message handlers share: open the database, begin, run the body, and
  -- commit; the destructor rolls back on each way out behind `Begin` but the last.
  unfoldable pub transaction : Action D → Action D
  transaction body c =
      on_ok (open_if_needed c)
        (λ c1.
          on_ok (begin c1)
            (λ c2. on_ok (body c2) (λ c3. on_ok (commit c3) (λ c4. (true, c4)) rollback) rollback)
            failing)
        failing
