-- ===== src/Store/Healthy.antt =====
-- The functions of the store while SQLite answers every call.
use capacity_agent.Base.{ℕ, suc, ◌≡◌, refl, ap, ◌∙◌, Bool, true, false, none, List, [], ◌∷◌, arith}
use capacity_agent.Bridge.Messages.{BridgeMessage, hello, catalog_snapshot, sample_batch, heartbeat}
use capacity_agent.Store.Tables.{Params}
use capacity_agent.Store.Statements.{Sql}
use capacity_agent.Store.Connection.{
  Conn, Action, failing, both, succeed, for_each, call, bind_all, step_done, run_statement,
  open_if_needed, begin, commit, transaction,
}
use capacity_agent.Store.Writes.{
  upsert_machine, upsert_collector, upsert_catalog_sensor, insert_sensor_sample, upsert_hello,
  upsert_catalog_snapshot, insert_sample_batch, upsert_heartbeat,
}
use capacity_agent.Store.Atomic.{on_ok-true}
use capacity_agent.Store.Transaction.{Idle}
use capacity_agent.Store.Effects.{effect}
use capacity_agent.Store.Persist.{persist, persist-Atomic}

-- An action that succeeds on every connection, and leaves the open transaction open.
pub record Sure {D : Type 0} (m : Action D) : Type 0 where
  pub succeeds : (c : Conn D) → (m c).0 ≡ true

module _ {D : Type 0} where
  pub both-Sure : (a b : Action D) → Sure a → Sure b → Sure (both a b)
  unfolding both
  both-Sure a b sa sb = record {
    succeeds =
        λ c. ap (λ r. r.0) (on_ok-true b failing (a c) (sa.succeeds c)) ∙ sb.succeeds (a c).1;
  }

  for_each-Sure :
      {A : Type 0} (f : A → Action D)
      → ((x : A) → Sure (f x))
      → (xs : List A) → Sure (for_each f xs)
  unfolding for_each succeed
  for_each-Sure f s [] = record { succeeds = λ c. refl }
  for_each-Sure f s (x ∷ xs) = both-Sure (f x) (for_each f xs) (s x) (for_each-Sure f s xs)

module _ {D : Type 0} (fails : ℕ → Bool) (healthy : (n : ℕ) → fails n ≡ false) where
  call-Sure : Sure (call {D = D} fails)
  unfolding call
  call-Sure = record { succeeds = λ c. rw (healthy c.calls) }

  bind_all-Sure : (bs : Params D) → Sure (bind_all fails bs)
  unfolding bind_all succeed
  bind_all-Sure [] = record { succeeds = λ c. refl }
  bind_all-Sure (b ∷ bs) = both-Sure (call fails) (bind_all fails bs) call-Sure (bind_all-Sure bs)

  step_done-Sure : (sql : Sql) (ps : Params D) → Sure (step_done fails sql ps)
  unfolding step_done call
  step_done-Sure sql ps = record { succeeds = λ c. rw (healthy c.calls) }

  pub run_statement-Sure : (sql : Sql) (bs : Params D) → Sure (run_statement fails sql bs)
  unfolding run_statement
  run_statement-Sure sql bs =
      both-Sure (call fails) _ call-Sure
        (both-Sure (bind_all fails bs) _ (bind_all-Sure bs) (step_done-Sure sql _))

  commit-Sure : Sure (commit {D = D} fails)
  unfolding commit call
  commit-Sure = record { succeeds = λ c. rw (healthy c.calls) }

  pub opens :
      (c : Conn D)
      → ((open_if_needed fails c).0 ≡ true) × ((open_if_needed fails c).1.saved ≡ c.saved)
  unfolding open_if_needed call
  opens c = ground (arith, healthy c.calls, healthy (suc c.calls))

  begins : (c : Conn D) → c.saved ≡ none → (begin fails c).0 ≡ true
  unfolding begin call
  begins c h = rw (healthy c.calls, h)

  transaction-succeeds :
      (body : Action D) (c : Conn D) → Sure body → Idle c → (transaction fails body c).0 ≡ true
  unfolding transaction
  transaction-succeeds body c s idle =
      let c1 = (open_if_needed fails c).1 in
      let c2 = (begin fails c1).1 in
      rw (on_ok-true _ failing (open_if_needed fails c) (opens c).0) (
        rw (on_ok-true _ failing (begin fails c1) (begins c1 ((opens c).1 ∙ idle))) (
          rw (on_ok-true _ _ (body c2) (s.succeeds c2)) (
            rw (on_ok-true _ _ (commit fails (body c2).1) (commit-Sure.succeeds (body c2).1))
              refl)))

  pub persist-succeeds : (m : BridgeMessage D) (c : Conn D) → Idle c → (persist fails m c).0 ≡ true
  unfolding persist
  persist-succeeds (hello m) c idle =
      unfold upsert_hello upsert_machine upsert_collector in
      transaction-succeeds _ c (both-Sure _ _ (run_statement-Sure _ _) (run_statement-Sure _ _))
        idle
  persist-succeeds (catalog_snapshot m) c idle =
      unfold upsert_catalog_snapshot upsert_machine upsert_collector upsert_catalog_sensor in
      transaction-succeeds _ c
        (both-Sure _ _ (run_statement-Sure _ _) (
          both-Sure _ _ (run_statement-Sure _ _)
            (for_each-Sure _ (λ s. run_statement-Sure _ _) m.sensors)))
        idle
  persist-succeeds (sample_batch m) c idle =
      unfold insert_sample_batch upsert_machine upsert_collector insert_sensor_sample in
      transaction-succeeds _ c
        (both-Sure _ _ (run_statement-Sure _ _) (
          both-Sure _ _ (run_statement-Sure _ _)
            (for_each-Sure _ (λ s. run_statement-Sure _ _) m.samples)))
        idle
  persist-succeeds (heartbeat m) c idle =
      unfold upsert_heartbeat upsert_machine upsert_collector in
      transaction-succeeds _ c (both-Sure _ _ (run_statement-Sure _ _) (run_statement-Sure _ _))
        idle

  -- On a connection with no open transaction, if no call of SQLite fails, then a message of any type is
  -- acknowledged, the tables are its effect on those before, and no transaction is left open.
  pub persist_stores :
      (m : BridgeMessage D) (c : Conn D)
      → Idle c
      → ((persist fails m c).0 ≡ true)
        × ((persist fails m c).1.db ≡ effect m c.db)
        × ((persist fails m c).1.saved ≡ none)
  persist_stores m c idle =
      let acknowledged = persist-succeeds m c idle in
      let stored = (persist-Atomic fails m c idle).all acknowledged in
      (acknowledged, stored.0, stored.1)
