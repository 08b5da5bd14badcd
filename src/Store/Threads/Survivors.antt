-- ===== src/Store/Threads/Survivors.antt =====
-- What survives of the writes of all threads.
use capacity_agent.Base.{
  ℕ, ◌≡◌, refl, sym, ap, ◌∙◌, ◌⊎◌, inl, inr, Bool, true, false, Option, none, some, List, [], ◌∷◌,
  ◌++◌, arith,
}
use capacity_agent.Store.Tables.{Db}
use capacity_agent.Store.Connection.{Conn, both, open_if_needed, call, begin, commit, rollback}
use capacity_agent.Store.Atomic.{each}
use capacity_agent.Store.Transaction.{durable, Idle}
use capacity_agent.Store.Direct.{Single, both-Single, open-Single, run_statement-Single}
use capacity_agent.Store.Threads.{
  Insert, Phase, waiting, inside, rolling, System, Turn, pipe, collector, Event, began, wrote,
  committed, rolled_back, run_insert, after, rolled, pipe_turn, turn, run_turns, effect_of,
}

-- What the events say: the writes that are settled, and those of the open transaction, if there is one.
pub record Log (D : Type 0) : Type 0 where
  pub settled : List (Insert D)
  pub pending : Option (List (Insert D))

module _ {D : Type 0} where
  abbrev pub add_write : Insert D → List (Insert D) → Option (List (Insert D)) → Log D
  add_write i settled none = record { settled = settled ++ i ∷ []; pending = none }
  add_write i settled (some writes) = record {
    settled = settled;
    pending = some (writes ++ i ∷ []);
  }

  abbrev pub settle : List (Insert D) → Option (List (Insert D)) → Log D
  settle settled none = record { settled = settled; pending = none }
  settle settled (some writes) = record { settled = settled ++ writes; pending = none }

  abbrev pub record_event : Event D → Log D → Log D
  record_event began log = record log { pending = some [] }
  record_event (wrote i) log = add_write i log.settled log.pending
  record_event committed log = settle log.settled log.pending
  record_event rolled_back log = record log { pending = none }

  abbrev pub log_of : List (Event D) → Log D → Log D
  log_of [] log = log
  log_of (e ∷ events) log = log_of events (record_event e log)

  -- A write survives if it was made outside transactions, or in one that was committed.
  abbrev pub survivors : List (Event D) → List (Insert D)
  survivors events = (log_of events (record { settled = []; pending = none })).settled

  abbrev pub replay : List (Insert D) → Db D → Db D
  replay = each effect_of

  replay-append :
      (xs ys : List (Insert D)) (db : Db D) → replay (xs ++ ys) db ≡ replay ys (replay xs db)
  replay-append [] ys db = refl
  replay-append (x ∷ xs) ys db = replay-append xs ys (effect_of x db)

  log_of-append :
      (xs ys : List (Event D)) (log : Log D) → log_of (xs ++ ys) log ≡ log_of ys (log_of xs log)
  log_of-append [] ys log = refl
  log_of-append (x ∷ xs) ys log = log_of-append xs ys (record_event x log)

  -- The connection is as the log says, from the tables `db0` on.
  abbrev Agrees : Db D → List (Insert D) → Option (List (Insert D)) → Conn D → Type 0
  Agrees db0 settled none c = (c.saved ≡ none) × (c.db ≡ replay settled db0)
  Agrees db0 settled (some writes) c =
      (c.saved ≡ some (replay settled db0)) × (c.db ≡ replay writes (replay settled db0))

  abbrev Fits : Db D → Log D → Conn D → Type 0
  Fits db0 log c = Agrees db0 log.settled log.pending c

  Agrees-write :
      (db0 : Db D) (settled : List (Insert D)) (p : Option (List (Insert D))) (i : Insert D)
      (c c' : Conn D)
      → Agrees db0 settled p c
      → c'.saved ≡ c.saved
      → c'.db ≡ effect_of i c.db
      → Fits db0 (add_write i settled p) c'
  Agrees-write db0 settled none i c c' (a, b) e f =
      (e ∙ a, f ∙ ap (effect_of i) b ∙ sym (replay-append settled (i ∷ []) db0))
  Agrees-write db0 settled (some writes) i c c' (a, b) e f =
      (e ∙ a, f ∙ ap (effect_of i) b ∙ sym (replay-append writes (i ∷ []) (replay settled db0)))

  Agrees-same :
      (db0 : Db D) (settled : List (Insert D)) (p : Option (List (Insert D))) (c c' : Conn D)
      → Agrees db0 settled p c
      → c'.saved ≡ c.saved
      → c'.db ≡ c.db
      → Agrees db0 settled p c'
  Agrees-same db0 settled none c c' (a, b) e f = (e ∙ a, f ∙ b)
  Agrees-same db0 settled (some writes) c c' (a, b) e f = (e ∙ a, f ∙ b)

  Agrees-durable :
      (db0 : Db D) (settled : List (Insert D)) (p : Option (List (Insert D))) (c : Conn D)
      → Agrees db0 settled p c
      → durable c ≡ replay settled db0
  Agrees-durable db0 settled none c (a, b) = rw a b
  Agrees-durable db0 settled (some writes) c (a, b) = rw a refl

  after-Fits :
      (fails : ℕ → Bool) (db0 : Db D) (log : Log D) (r : Bool × Conn D)
      (good : Phase D × List (Event D)) (bad : Phase D)
      → (r.0 ≡ true → Fits db0 (log_of good.1 log) r.1)
      → (r.0 ≡ false → Fits db0 log r.1)
      → Fits db0 (log_of (after fails r good bad).1 log) (after fails r good bad).0.conn
  after-Fits fails db0 log (true, c) good bad t f = t refl
  after-Fits fails db0 log (false, c) good bad t f = f refl

module _ {D : Type 0} (fails : ℕ → Bool) (db0 : Db D) where
  started :
      (c : Conn D)
      → (both (open_if_needed fails) (begin fails) c).0 ≡ true
      → (c.saved ≡ none)
        × ((both (open_if_needed fails) (begin fails) c).1.saved ≡ some c.db)
        × ((both (open_if_needed fails) (begin fails) c).1.db ≡ c.db)
  unfolding both open_if_needed begin
  started c h = ground arith

  not_started :
      (c : Conn D)
      → (both (open_if_needed fails) (begin fails) c).0 ≡ false
      → ((both (open_if_needed fails) (begin fails) c).1.saved ≡ c.saved)
        × ((both (open_if_needed fails) (begin fails) c).1.db ≡ c.db)
  unfolding both open_if_needed begin
  not_started c h = ground arith

  commit_kept :
      (c : Conn D)
      → (commit fails c).0 ≡ false
      → ((commit fails c).1.saved ≡ c.saved) × ((commit fails c).1.db ≡ c.db)
  unfolding commit
  commit_kept c h = ground arith

  commit_done :
      (c : Conn D)
      → (commit fails c).0 ≡ true
      → ((commit fails c).1.saved ≡ none) × ((commit fails c).1.db ≡ c.db)
  unfolding commit
  commit_done c h = ground arith

  insert-Single : (i : Insert D) → Single (run_insert fails i) (effect_of i)
  unfolding run_insert
  insert-Single i = run_statement-Single fails i.sql i.bindings

  begun-Fits :
      (c c' : Conn D) (settled : List (Insert D)) (p : Option (List (Insert D)))
      → Agrees db0 settled p c
      → c.saved ≡ none
      → c'.saved ≡ some c.db
      → c'.db ≡ c.db
      → Agrees db0 settled (some []) c'
  begun-Fits c c' settled none (a, b) n s e = (s ∙ ap some b, e ∙ b)
  begun-Fits c c' settled (some writes) (a, b) n s e = absurd (ground arith)

  settled-Fits :
      (c c' : Conn D) (settled : List (Insert D)) (p : Option (List (Insert D)))
      → Agrees db0 settled p c
      → c'.saved ≡ none
      → c'.db ≡ c.db
      → Fits db0 (settle settled p) c'
  settled-Fits c c' settled none (a, b) s e = (s, e ∙ b)
  settled-Fits c c' settled (some writes) (a, b) s e =
      (s, e ∙ b ∙ sym (replay-append settled writes db0))

  rollback_split :
      (c : Conn D) (b : Bool) (o : Option (Db D))
      → fails c.calls ≡ b
      → c.saved ≡ o
      → (((rollback fails c).1.saved ≡ none) × ((rollback fails c).1.db ≡ durable c))
        ⊎ ((s : Db D) × ((rollback fails c).1.saved ≡ some s)
            × ((rollback fails c).1.saved ≡ c.saved)
            × ((rollback fails c).1.db ≡ c.db))
  unfolding rollback call
  rollback_split c b none p q = inl (ground arith, ground arith)
  rollback_split c true (some s) p q = inr (s, ground arith, ground arith, ground arith)
  rollback_split c false (some s) p q = inl (ground arith, ground arith)

  rollback_cases :
      (c : Conn D)
      → (((rollback fails c).1.saved ≡ none) × ((rollback fails c).1.db ≡ durable c))
        ⊎ ((s : Db D) × ((rollback fails c).1.saved ≡ some s)
            × ((rollback fails c).1.saved ≡ c.saved)
            × ((rollback fails c).1.db ≡ c.db))
  rollback_cases c = rollback_split c (fails c.calls) c.saved refl refl

  rolled-Fits :
      (c : Conn D) (log : Log D)
      → Fits db0 log c
      → Fits db0 (log_of (rolled fails (rollback fails c).1.saved) log) (rollback fails c).1
  rolled-Fits c log f = elim (rollback_cases c) [
    | inl (n, e) ↦ rw n (n, e ∙ Agrees-durable db0 log.settled log.pending c f)
    | inr (s, o, k, e) ↦ rw o (Agrees-same db0 log.settled log.pending c (rollback fails c).1 f k e)
  ]

  pipe_turn-Fits :
      (body : List (Insert D)) (phase : Phase D) (c : Conn D) (log : Log D)
      → Fits db0 log c
      → Fits db0 (log_of (pipe_turn fails body phase c).1 log) (pipe_turn fails body phase c).0.conn
  unfolding pipe_turn
  pipe_turn-Fits body waiting c log f =
      let r = both (open_if_needed fails) (begin fails) c in
      after-Fits fails db0 log r _ waiting
        (λ t. let (n, s, e) = started c t in begun-Fits c r.1 log.settled log.pending f n s e)
        (λ t. let (s, e) = not_started c t in Agrees-same db0 log.settled log.pending c r.1 f s e)
  pipe_turn-Fits body (inside []) c log f =
      after-Fits fails db0 log (commit fails c) _ rolling
        (λ t.
          settled-Fits c (commit fails c).1 log.settled log.pending f (commit_done c t).0
            (commit_done c t).1)
        (λ t.
          Agrees-same db0 log.settled log.pending c (commit fails c).1 f (commit_kept c t).0
            (commit_kept c t).1)
  pipe_turn-Fits body (inside (i ∷ rest)) c log f =
      let single = insert-Single i in
      after-Fits fails db0 log (run_insert fails i c) _ rolling
        (λ t.
          Agrees-write db0 log.settled log.pending i c (run_insert fails i c).1 f (single.saved c)
            (single.done c t))
        (λ t.
          Agrees-same db0 log.settled log.pending c (run_insert fails i c).1 f (single.saved c)
            (single.refused c t))
  pipe_turn-Fits body rolling c log f = rolled-Fits c log f

  turn-Fits :
      (t : Turn D) (s : System D) (log : Log D)
      → Fits db0 log s.conn
      → Fits db0 (log_of (turn fails t s).1 log) (turn fails t s).0.conn
  unfolding turn
  turn-Fits (pipe body) s log f = pipe_turn-Fits body s.phase s.conn log f
  turn-Fits (collector i) s log f =
      let c = s.conn in
      let single = both-Single _ _ _ (open-Single fails) (insert-Single i) in
      let r = both (open_if_needed fails) (run_insert fails i) c in
      after-Fits fails db0 log r _ s.phase
        (λ t. Agrees-write db0 log.settled log.pending i c r.1 f (single.saved c) (single.done c t))
        (λ t. Agrees-same db0 log.settled log.pending c r.1 f (single.saved c) (single.refused c t))

  run_turns-Fits :
      (turns : List (Turn D)) (s : System D) (log : Log D)
      → Fits db0 log s.conn
      → Fits db0 (log_of (run_turns fails turns s).1 log) (run_turns fails turns s).0.conn
  unfolding run_turns
  run_turns-Fits [] s log f = f
  run_turns-Fits (t ∷ turns) s log f =
      let r = turn fails t s in
      rw (log_of-append r.1 (run_turns fails turns r.0).1 log)
        (run_turns-Fits turns r.0 (log_of r.1 log) (turn-Fits t s log f))

-- Whatever turns the threads of the store take, in whatever order, from a connection with no open
-- transaction, and whichever calls of SQLite fail: what survives is the result of the acknowledged writes
-- that were made outside transactions or inside one that was committed, in their order. A write that was
-- made between a BEGIN and its ROLLBACK does not survive, be it of the pipe's thread or of a collector's.
pub durable-run_turns :
    {D : Type 0} (fails : ℕ → Bool) (turns : List (Turn D)) (s : System D)
    → Idle s.conn
    → durable (run_turns fails turns s).0.conn
      ≡ replay (survivors (run_turns fails turns s).1) s.conn.db
durable-run_turns fails turns s idle =
    let start : Log _ = record { settled = []; pending = none } in
    let r = run_turns fails turns s in
    let log = log_of r.1 start in
    Agrees-durable s.conn.db log.settled log.pending r.0.conn
      (run_turns-Fits fails s.conn.db turns s start (idle, refl))
