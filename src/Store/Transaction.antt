-- ===== src/Store/Transaction.antt =====
-- The frame of the four message handlers of apps/host_agent/src/storage/sqlite_store.cpp, under any
-- failures of SQLite.
use capacity_agent.Base.{
  ℕ, ◌≡◌, ap, ◌∙◌, inl, inr, Bool, true, false, none, some, Bool-cases, arith,
}
use capacity_agent.Store.Tables.{Db}
use capacity_agent.Store.Connection.{
  Conn, Action, on_ok, failing, call, open_if_needed, begin, commit, rollback, transaction,
}
use capacity_agent.Store.Atomic.{Law, on_ok-true, on_ok-false}

module _ {D : Type 0} where
  -- What survives: the tables as they were when the open transaction began, or as they are.
  abbrev pub durable : Conn D → Db D
  durable c = elim c.saved [ none ↦ c.db | some s ↦ s ]

  -- A connection that is between two messages.
  abbrev pub Idle : Conn D → Type 0
  Idle c = c.saved ≡ none

  -- What a message does, by the result: all of its effect, with no transaction left open; or none.
  pub record Atomic (before : Db D) (eff : Db D → Db D) (r : Bool × Conn D) : Type 0 where
    pub all : r.0 ≡ true → (r.1.db ≡ eff before) × (r.1.saved ≡ none)
    pub nothing : r.0 ≡ false → durable r.1 ≡ before

module _ {D : Type 0} (fails : ℕ → Bool) where
  -- Opening the database changes no table.
  open_keeps :
      (c : Conn D)
      → ((open_if_needed fails c).1.saved ≡ c.saved) × ((open_if_needed fails c).1.db ≡ c.db)
  unfolding open_if_needed call
  open_keeps c = ground arith

  begin-true :
      (c : Conn D)
      → (begin fails c).0 ≡ true
      → ((begin fails c).1.saved ≡ some c.db) × ((begin fails c).1.db ≡ c.db)
  unfolding begin call
  begin-true c h = ground arith

  begin-false :
      (c : Conn D)
      → (begin fails c).0 ≡ false
      → ((begin fails c).1.saved ≡ c.saved) × ((begin fails c).1.db ≡ c.db)
  unfolding begin call
  begin-false c h = ground arith

  commit-true :
      (c : Conn D)
      → (commit fails c).0 ≡ true
      → ((commit fails c).1.saved ≡ none) × ((commit fails c).1.db ≡ c.db)
  unfolding commit call
  commit-true c h = ground arith

  commit-false : (c : Conn D) → (commit fails c).0 ≡ false → (commit fails c).1.saved ≡ c.saved
  unfolding commit call
  commit-false c h = ground arith

  rollback-false : (c : Conn D) → (rollback fails c).0 ≡ false
  unfolding rollback call
  rollback-false c = ground arith

  -- After a rollback, be it done or refused, what survives is the state before the transaction.
  durable-rollback : (c : Conn D) (s : Db D) → c.saved ≡ some s → durable (rollback fails c).1 ≡ s
  unfolding rollback call
  durable-rollback c s h = ground arith

  commit_or_rollback : Action D
  commit_or_rollback c = on_ok (commit fails c) (λ c'. (true, c')) (rollback fails)

  rolled_back-Atomic :
      (c : Conn D) (s : Db D) (eff : Db D → Db D)
      → c.saved ≡ some s
      → Atomic s eff (rollback fails c)
  rolled_back-Atomic c s eff h = record {
    all = λ e. absurd (cc (rollback-false c));
    nothing = λ e. durable-rollback c s h;
  }

  commit_or_rollback-Atomic :
      (c : Conn D) (s : Db D) (eff : Db D → Db D)
      → c.saved ≡ some s
      → c.db ≡ eff s
      → Atomic s eff (commit_or_rollback c)
  unfolding commit_or_rollback
  commit_or_rollback-Atomic c s eff h e = elim (Bool-cases (commit fails c).0) [
    | inl t ↦
        rw (on_ok-true (λ c'. (true, c')) (rollback fails) (commit fails c) t)
          (record { all = λ _. ((commit-true c t).1 ∙ e, (commit-true c t).0); nothing = λ f. cc })
    | inr f ↦
        rw (on_ok-false (λ c'. (true, c')) (rollback fails) (commit fails c) f)
          (rolled_back-Atomic (commit fails c).1 s eff (commit-false c f ∙ h))
  ]

  run_body : Action D → Action D
  run_body body c = on_ok (body c) commit_or_rollback (rollback fails)

  run_body-Atomic :
      (body : Action D) (eff : Db D → Db D) (c : Conn D) (s : Db D)
      → Law body eff
      → c.saved ≡ some s
      → c.db ≡ s
      → Atomic s eff (run_body body c)
  unfolding run_body
  run_body-Atomic body eff c s l h e = elim (Bool-cases (body c).0) [
    | inl t ↦
        rw (on_ok-true commit_or_rollback (rollback fails) (body c) t)
          (commit_or_rollback-Atomic (body c).1 s eff (l.saved c ∙ h) (l.done c t ∙ ap eff e))
    | inr f ↦
        rw (on_ok-false commit_or_rollback (rollback fails) (body c) f)
          (rolled_back-Atomic (body c).1 s eff (l.saved c ∙ h))
  ]

  failing-Atomic :
      (c : Conn D) (s : Db D) (eff : Db D → Db D)
      → c.saved ≡ none
      → c.db ≡ s
      → Atomic s eff (failing c)
  failing-Atomic c s eff h e = record { all = λ t. cc; nothing = λ _. ground arith }

  begin_and_run : Action D → Action D
  begin_and_run body c = on_ok (begin fails c) (run_body body) failing

  begin_and_run-Atomic :
      (body : Action D) (eff : Db D → Db D) (c : Conn D) (s : Db D)
      → Law body eff
      → c.saved ≡ none
      → c.db ≡ s
      → Atomic s eff (begin_and_run body c)
  unfolding begin_and_run
  begin_and_run-Atomic body eff c s l h e = elim (Bool-cases (begin fails c).0) [
    | inl t ↦ rw (on_ok-true (run_body body) failing (begin fails c) t) (
        run_body-Atomic body eff (begin fails c).1 s l ((begin-true c t).0 ∙ ap some e)
          ((begin-true c t).1 ∙ e))
    | inr f ↦
        rw (on_ok-false (run_body body) failing (begin fails c) f) (
          failing-Atomic (begin fails c).1 s eff ((begin-false c f).0 ∙ h)
            ((begin-false c f).1 ∙ e))
  ]

  -- The frame of the four handlers, on a connection with no open transaction: if it returns true, the
  -- tables have all of the body's effect and no transaction is left open; if it returns false,
  -- whichever call failed, COMMIT and ROLLBACK included, what survives is what was there before.
  pub transaction-Atomic :
      (body : Action D) (eff : Db D → Db D) (c : Conn D)
      → Law body eff
      → Idle c
      → Atomic c.db eff (transaction fails body c)
  unfolding transaction
  transaction-Atomic body eff c l idle = elim (Bool-cases (open_if_needed fails c).0) [
    | inl t ↦ rw (on_ok-true _ failing (open_if_needed fails c) t) (
        unfold run_body commit_or_rollback begin_and_run in
        begin_and_run-Atomic body eff (open_if_needed fails c).1 c.db l ((open_keeps c).0 ∙ idle)
          (open_keeps c).1)
    | inr f ↦ rw (on_ok-false _ failing (open_if_needed fails c) f) (
        failing-Atomic (open_if_needed fails c).1 c.db eff ((open_keeps c).0 ∙ idle)
          (open_keeps c).1)
  ]
