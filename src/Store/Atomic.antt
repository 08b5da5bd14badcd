-- ===== src/Store/Atomic.antt =====
-- What an action on the connection of apps/host_agent/src/storage/sqlite_store.cpp does to the tables,
-- where it succeeds.
use capacity_agent.Base.{
  ℕ, ◌≡◌, refl, ap, ◌∙◌, inl, inr, Bool, true, false, List, [], ◌∷◌, Bool-cases, arith,
}
use capacity_agent.Store.Tables.{Params, Db}
use capacity_agent.Store.Statements.{Sql, execute}
use capacity_agent.Store.Connection.{
  Conn, Action, on_ok, failing, both, succeed, for_each, bound, call, bind_all, step_done,
  run_statement,
}

-- An action that opens and closes no transaction, and whose success means the effect `eff`.
pub record Law {D : Type 0} (m : Action D) (eff : Db D → Db D) : Type 0 where
  pub saved : (c : Conn D) → (m c).1.saved ≡ c.saved
  pub done : (c : Conn D) → (m c).0 ≡ true → (m c).1.db ≡ eff c.db

abbrev pub same : {D : Type 0} → Db D → Db D
same db = db

abbrev pub each : {A D : Type 0} → (A → Db D → Db D) → List A → Db D → Db D
each f [] db = db
each f (x ∷ xs) db = each f xs (f x db)

module _ {D : Type 0} (next otherwise : Conn D → Bool × Conn D) where
  pub on_ok-true : (r : Bool × Conn D) → r.0 ≡ true → on_ok r next otherwise ≡ next r.1
  on_ok-true (true, c) h = refl
  on_ok-true (false, c) h = cc

  pub on_ok-false : (r : Bool × Conn D) → r.0 ≡ false → on_ok r next otherwise ≡ otherwise r.1
  on_ok-false (true, c) h = cc
  on_ok-false (false, c) h = refl

module _ {D : Type 0} where
  both-true : (a b : Action D) (c : Conn D) → (a c).0 ≡ true → both a b c ≡ b (a c).1
  unfolding both
  both-true a b c h = on_ok-true b failing (a c) h

  both-false : (a b : Action D) (c : Conn D) → (a c).0 ≡ false → both a b c ≡ (false, (a c).1)
  unfolding both
  both-false a b c h = on_ok-false b failing (a c) h

  pub both-Law :
      (a b : Action D) (e f : Db D → Db D) → Law a e → Law b f → Law (both a b) (λ db. f (e db))
  both-Law a b e f la lb = record { saved = keep; done = finish }
    where
      keep : (c : Conn D) → (both a b c).1.saved ≡ c.saved
      keep c = elim (Bool-cases (a c).0) [
        | inl h ↦ rw (both-true a b c h) (lb.saved (a c).1 ∙ la.saved c)
        | inr h ↦ rw (both-false a b c h) (la.saved c)
      ]

      finish : (c : Conn D) → (both a b c).0 ≡ true → (both a b c).1.db ≡ f (e c.db)
      finish c r = elim (Bool-cases (a c).0) [
        | inl h ↦
            rw (both-true a b c h)
              (lb.done (a c).1 (rw (both-true a b c h) at r) ∙ ap f (la.done c h))
        | inr h ↦ absurd (cc (rw (both-false a b c h) at r))
      ]

  pub succeed-Law : Law (succeed {D = D}) same
  succeed-Law = unfold succeed in record { saved = λ c. refl; done = λ c h. refl }

  pub for_each-Law :
      {A : Type 0} (f : A → Action D) (e : A → Db D → Db D)
      → ((x : A) → Law (f x) (e x))
      → (xs : List A) → Law (for_each f xs) (each e xs)
  unfolding for_each
  for_each-Law f e l [] = succeed-Law
  for_each-Law f e l (x ∷ xs) =
      both-Law (f x) (for_each f xs) (e x) (each e xs) (l x) (for_each-Law f e l xs)

module _ {D : Type 0} (fails : ℕ → Bool) where
  call-Law : Law (call {D = D} fails) same
  call-Law = unfold call in record { saved = λ c. refl; done = λ c h. refl }

  bind_all-Law : (bs : Params D) → Law (bind_all fails bs) same
  unfolding bind_all
  bind_all-Law [] = succeed-Law
  bind_all-Law (b ∷ bs) =
      both-Law (call fails) (bind_all fails bs) same same call-Law (bind_all-Law bs)

  step_done-Law : (sql : Sql) (ps : Params D) → Law (step_done fails sql ps) (execute sql ps)
  unfolding step_done call
  step_done-Law sql ps = record { saved = λ c. ground arith; done = λ c h. ground arith }

  -- A statement that succeeds has the effect of its SQL on the tables.
  pub run_statement-Law :
      (sql : Sql) (bs : Params D) → Law (run_statement fails sql bs) (execute sql (bound bs []))
  unfolding run_statement
  run_statement-Law sql bs =
      both-Law (call fails) _ same _ call-Law
        (both-Law (bind_all fails bs) _ same _ (bind_all-Law bs) (step_done-Law sql (bound bs [])))
