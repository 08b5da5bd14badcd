-- ===== src/Store/Threads/Bodies.antt =====
-- The statements of each message, and the pipe's thread on its own: its turns are the calls that the
-- handlers of apps/host_agent/src/storage/sqlite_store.cpp make.
use capacity_agent.Base.{
  ℕ, zero, suc, ◌≡◌, refl, sym, ap, Bool, true, false, none, some, List, [], ◌∷◌, map, length,
  codes,
}
use capacity_agent.Bridge.Messages.{
  MessageEnvelope, CatalogSensor, SensorSample, SampleBatchMessage, BridgeMessage, hello,
  catalog_snapshot, sample_batch, heartbeat,
}
use capacity_agent.Store.Json.{
  collector_id, build_machine_extra_json, build_hello_extra_json, build_catalog_extra_json,
  build_sample_extra_json, build_heartbeat_extra_json,
}
use capacity_agent.Store.Statements.{
  upsert_machine_catalog, upsert_collector_health, upsert_sensor_catalog, insert_sensor_samples,
}
use capacity_agent.Store.Connection.{
  Conn, Action, on_ok, failing, both, succeed, for_each, open_if_needed, begin, commit, rollback,
  transaction,
}
use capacity_agent.Store.Bindings.{
  machine_bindings, collector_bindings, sensor_bindings, sample_bindings,
}
use capacity_agent.Store.Writes.{
  upsert_machine, upsert_collector, upsert_catalog_sensor, insert_sensor_sample, upsert_hello,
  upsert_catalog_snapshot, insert_sample_batch, upsert_heartbeat,
}
use capacity_agent.Store.Persist.{persist}
use capacity_agent.Store.Threads.{
  Insert, Phase, waiting, inside, rolling, System, Turn, Event, pipe, run_insert, after, turn,
  run_turns,
}

abbrev sensor_insert : {D : Type 0} → MessageEnvelope → CatalogSensor → Insert D
sensor_insert e s = record { sql = upsert_sensor_catalog; bindings = sensor_bindings e s }

abbrev sample_insert : {D : Type 0} → SampleBatchMessage D → SensorSample D → Insert D
sample_insert m s = record { sql = insert_sensor_samples; bindings = sample_bindings m s }

-- The statements of a message, behind BEGIN and before COMMIT.
abbrev pub body : {D : Type 0} → BridgeMessage D → List (Insert D)
body (hello m) =
    let e = m.envelope in
    record {
      sql = upsert_machine_catalog;
      bindings =
          machine_bindings e.machine_id (some m.hostname) (some m.hostname) e.sent_at_utc_ms
            (some (build_machine_extra_json m));
    }
    ∷ record {
      sql = upsert_collector_health;
      bindings =
          collector_bindings (collector_id e.machine_id e.source) e.machine_id e.source
            (codes "bridge") (codes "ok") (some e.sent_at_utc_ms) none none e.sent_at_utc_ms
            (some (build_hello_extra_json m));
    }
    ∷ []
body (catalog_snapshot m) =
    let e = m.envelope in
    record {
      sql = upsert_machine_catalog;
      bindings = machine_bindings e.machine_id none none e.sent_at_utc_ms none;
    }
    ∷ record {
      sql = upsert_collector_health;
      bindings =
          collector_bindings (collector_id e.machine_id e.source) e.machine_id e.source
            (codes "sensor_stream") (codes "ok") none none none e.sent_at_utc_ms
            (some (build_catalog_extra_json (length m.sensors)));
    }
    ∷ map (sensor_insert e) m.sensors
body (sample_batch m) =
    let e = m.envelope in
    record {
      sql = upsert_machine_catalog;
      bindings = machine_bindings e.machine_id none none m.sample_time_utc_ms none;
    }
    ∷ record {
      sql = upsert_collector_health;
      bindings =
          collector_bindings (collector_id e.machine_id e.source) e.machine_id e.source
            (codes "sensor_stream") (codes "ok") none (some m.sample_time_utc_ms) none
            e.sent_at_utc_ms (some (build_sample_extra_json (length m.samples)));
    }
    ∷ map (sample_insert m) m.samples
body (heartbeat m) =
    let e = m.envelope in
    record {
      sql = upsert_machine_catalog;
      bindings = machine_bindings e.machine_id none none e.sent_at_utc_ms none;
    }
    ∷ record {
      sql = upsert_collector_health;
      bindings =
          collector_bindings (collector_id e.machine_id e.source) e.machine_id e.source
            (codes "bridge") m.status none none none e.sent_at_utc_ms
            (some (build_heartbeat_extra_json m));
    }
    ∷ []

module _ {D : Type 0} (fails : ℕ → Bool) where
  for_each-map :
      {A : Type 0} (f : A → Insert D) (xs : List A)
      → for_each (run_insert fails) (map f xs) ≡ for_each (λ x. run_insert fails (f x)) xs
  unfolding for_each
  for_each-map f [] = refl
  for_each-map f (x ∷ xs) = ap (both (run_insert fails (f x))) (for_each-map f xs)

  on_ok-succeed : (r : Bool × Conn D) → on_ok r succeed failing ≡ r
  unfolding succeed
  on_ok-succeed (true, c) = refl
  on_ok-succeed (false, c) = refl

  both-succeed : (a : Action D) → both a succeed ≡ a
  unfolding both
  both-succeed a i c = on_ok-succeed (a c) i

  -- What follows the first statement of a message.
  abbrev framed : Insert D → Action D → Action D
  framed first rest = transaction fails (both (run_insert fails first) rest)

  -- The handlers of the store make the calls of `body`, in a transaction.
  pub persist-eq_body :
      (m : BridgeMessage D)
      → persist fails m ≡ transaction fails (for_each (run_insert fails) (body m))
  unfolding persist for_each run_insert upsert_machine upsert_collector upsert_hello
      upsert_catalog_snapshot upsert_catalog_sensor insert_sample_batch insert_sensor_sample
      upsert_heartbeat
  persist-eq_body (hello m) = ap (framed _) (sym (both-succeed _))
  persist-eq_body (catalog_snapshot m) = rw (for_each-map (sensor_insert m.envelope) m.sensors) refl
  persist-eq_body (sample_batch m) = rw (for_each-map (sample_insert m) m.samples) refl
  persist-eq_body (heartbeat m) = ap (framed _) (sym (both-succeed _))

  abbrev pub pipe_turns : ℕ → List (Insert D) → List (Turn D)
  pipe_turns zero statements = []
  pipe_turns (suc n) statements = pipe statements ∷ pipe_turns n statements

  abbrev finish : Action D
  finish c = on_ok (commit fails c) (λ c'. (true, c')) (rollback fails)

  -- So many turns bring the pipe's thread from a system to its waiting, with this connection.
  abbrev pub Ends : List (Insert D) → System D → Conn D → Type 0
  Ends statements s c =
      (n : ℕ) × ((run_turns fails (pipe_turns n statements) s).0
        ≡ record { conn = c; phase = waiting })

  Ends-here :
      (statements : List (Insert D)) (c : Conn D)
      → Ends statements (record { conn = c; phase = waiting }) c
  unfolding run_turns
  Ends-here statements c = (0, refl)

  Ends-turn :
      (statements : List (Insert D)) (s : System D) (c : Conn D)
      → Ends statements (turn fails (pipe statements) s).0 c
      → Ends statements s c
  unfolding run_turns
  Ends-turn statements s c (n, e) = (suc n, e)

  Ends-rolling :
      (statements : List (Insert D)) (c : Conn D)
      → Ends statements (record { conn = c; phase = rolling }) (rollback fails c).1
  unfolding turn
  Ends-rolling statements c = Ends-turn statements _ _ (Ends-here statements (rollback fails c).1)

  -- After a call whose failure calls for a ROLLBACK.
  Ends-after :
      (statements : List (Insert D)) (r : Bool × Conn D) (good : Phase D × List (Event D))
      (next : Action D)
      → ((c : Conn D) → Ends statements (record { conn = c; phase = good.0 }) (next c).1)
      → Ends statements (after fails r good rolling).0 (on_ok r next (rollback fails)).1
  Ends-after statements (true, c) good next h = h c
  Ends-after statements (false, c) good next h = Ends-rolling statements c

  on_ok-both :
      (a b : Action D) (next otherwise : Action D) (c : Conn D)
      → on_ok (both a b c) next otherwise
        ≡ on_ok (a c) (λ c'. on_ok (b c') next otherwise) otherwise
  unfolding both
  on_ok-both a b next otherwise c = on_ok-on_ok (a c)
    where
      on_ok-on_ok :
          (r : Bool × Conn D)
          → on_ok (on_ok r b failing) next otherwise
            ≡ on_ok r (λ c'. on_ok (b c') next otherwise) otherwise
      on_ok-on_ok (true, c') = refl
      on_ok-on_ok (false, c') = refl

  Ends-inside :
      (statements rest : List (Insert D)) (c : Conn D)
      → Ends statements
          (record { conn = c; phase = inside rest })
          (on_ok (for_each (run_insert fails) rest c) finish (rollback fails)).1
  unfolding turn for_each succeed
  Ends-inside statements [] c =
      Ends-turn statements _ _
        (Ends-after statements (commit fails c) _ (λ c'. (true, c')) (Ends-here statements))
  Ends-inside statements (i ∷ rest) c =
      rw
        (on_ok-both (run_insert fails i) (for_each (run_insert fails) rest) finish (rollback fails)
          c)
        (Ends-turn statements _ _
          (Ends-after statements (run_insert fails i c) _ _ (Ends-inside statements rest)))

  abbrev run_body : List (Insert D) → Action D
  run_body statements c = on_ok (for_each (run_insert fails) statements c) finish (rollback fails)

  Ends-begun :
      (statements : List (Insert D)) (r : Bool × Conn D) (events : List (Event D))
      → Ends statements
          (after fails r (inside statements, events) waiting).0
          (on_ok r (run_body statements) failing).1
  Ends-begun statements (true, c) events = Ends-inside statements statements c
  Ends-begun statements (false, c) events = Ends-here statements c

  transaction-Ends :
      (statements : List (Insert D)) (c : Conn D)
      → Ends statements
          (record { conn = c; phase = waiting })
          (transaction fails (for_each (run_insert fails) statements) c).1
  unfolding turn transaction
  transaction-Ends statements c =
      rw (← on_ok-both (open_if_needed fails) (begin fails) (run_body statements) failing c) (
        Ends-turn statements _ _
          (Ends-begun statements (both (open_if_needed fails) (begin fails) c) _))

  -- With no turn of another thread in between, the turns of the pipe's thread from one message to the
  -- next do what the handler of the message does: they reach the same connection.
  pipe_turns-Ends :
      (m : BridgeMessage D) (c : Conn D)
      → Ends (body m) (record { conn = c; phase = waiting }) (persist fails m c).1
  pipe_turns-Ends m c = rw (persist-eq_body m) (transaction-Ends (body m) c)
