-- ===== src/Store/Persist.antt =====
-- `persist`, the `std::visit` of `HandlePipeMessage` in apps/host_agent/src/core/service.cpp, and the
-- effects of the functions that it calls.
use capacity_agent.Base.{ℕ, ◌≡◌, refl, ◌∙◌, Bool, Option, none, some, [], Text, arith}
use capacity_agent.Base.Int.{ℤ}
use capacity_agent.Bridge.Messages.{
  MessageEnvelope, CatalogSensor, CatalogSnapshotMessage, SensorSample, SampleBatchMessage,
  BridgeMessage, hello, catalog_snapshot, sample_batch, heartbeat,
}
use capacity_agent.Store.Tables.{
  MachineRow, CollectorRow, Db, param, as_text, as_opt_text, as_opt_int, as_opt_real,
}
use capacity_agent.Store.Statements.{
  machine_row, collector_row, sensor_row, sample_row, execute, upsert_machine_catalog,
  upsert_collector_health, upsert_sensor_catalog, insert_sensor_samples,
}
use capacity_agent.Store.Connection.{Conn, Action, bound}
use capacity_agent.Store.Writes.{
  upsert_machine, upsert_collector, upsert_catalog_sensor, insert_sensor_sample, upsert_hello,
  upsert_catalog_snapshot, insert_sample_batch, upsert_heartbeat,
}
use capacity_agent.Store.Bindings.{
  nullable_text, nullable_int64, nullable_double, non_empty, machine_bindings, collector_bindings,
  sensor_bindings, sample_bindings,
}
use capacity_agent.Store.Atomic.{Law, both-Law, for_each-Law, run_statement-Law}
use capacity_agent.Store.Transaction.{Idle, Atomic, transaction-Atomic}
use capacity_agent.Store.Effects.{
  put_machine, put_collector, put_sensor, put_sample, seen_machine, hello_machine, catalog_row,
  batch_row, effect,
}

pub opt_text : (D : Type 0) (o : Option Text) → as_opt_text (nullable_text {D = D} o) ≡ o
opt_text D none = refl
opt_text D (some t) = refl

pub opt_int : (D : Type 0) (o : Option ℤ) → as_opt_int (nullable_int64 {D = D} o) ≡ o
opt_int D none = refl
opt_int D (some t) = refl

pub opt_real : {D : Type 0} (o : Option D) → as_opt_real (nullable_double o) ≡ o
opt_real none = refl
opt_real (some t) = refl

module _ (D : Type 0) where
  machine_row-bindings :
      (r : MachineRow)
      → r.first_seen_utc_ms ≡ r.last_seen_utc_ms
      → machine_row {D = D} (
          bound
            (machine_bindings r.machine_id r.hostname r.display_name r.last_seen_utc_ms
              r.extra_json)
            [])
        ≡ r
  unfolding machine_row bound machine_bindings param
  machine_row-bindings r e =
      ground (arith, opt_text D r.hostname, opt_text D r.display_name, opt_text D r.extra_json)

  collector_row-bindings :
      (r : CollectorRow)
      → collector_row {D = D} (
          bound
            (collector_bindings r.collector_id r.machine_id r.source r.collector_type r.status
              r.last_hello_utc_ms r.last_sample_utc_ms r.last_error r.updated_utc_ms r.extra_json)
            [])
        ≡ r
  unfolding collector_row bound collector_bindings param
  collector_row-bindings r = ground (
    arith,
    opt_int D r.last_hello_utc_ms,
    opt_int D r.last_sample_utc_ms,
    opt_text D r.last_error,
    opt_text D r.extra_json,
  )

  sensor_row-bindings :
      (e : MessageEnvelope) (s : CatalogSensor)
      → sensor_row {D = D} (bound (sensor_bindings e s) []) ≡ catalog_row e s
  unfolding sensor_row bound sensor_bindings param
  sensor_row-bindings e s = ground (arith, opt_text D (non_empty s.properties_json))

  machine_effect :
      (r : MachineRow)
      → r.first_seen_utc_ms ≡ r.last_seen_utc_ms
      → (db : Db D)
      → execute upsert_machine_catalog
          (bound
            (machine_bindings r.machine_id r.hostname r.display_name r.last_seen_utc_ms
              r.extra_json)
            [])
          db
        ≡ put_machine r db
  unfolding execute put_machine
  machine_effect r e db = rw (machine_row-bindings r e)

  pub collector_effect :
      (r : CollectorRow) (db : Db D)
      → execute upsert_collector_health
          (bound
            (collector_bindings r.collector_id r.machine_id r.source r.collector_type r.status
              r.last_hello_utc_ms r.last_sample_utc_ms r.last_error r.updated_utc_ms r.extra_json)
            [])
          db
        ≡ put_collector r db
  unfolding execute put_collector
  collector_effect r db = rw (collector_row-bindings r)

  sensor_effect :
      (e : MessageEnvelope) (s : CatalogSensor) (db : Db D)
      → execute upsert_sensor_catalog (bound (sensor_bindings e s) []) db
        ≡ put_sensor (catalog_row e s) db
  unfolding execute put_sensor
  sensor_effect e s db = rw (sensor_row-bindings e s)

sample_row-bindings :
    {D : Type 0} (m : SampleBatchMessage D) (s : SensorSample D)
    → sample_row (bound (sample_bindings m s) []) ≡ batch_row m s
unfolding sample_row bound sample_bindings param
sample_row-bindings m s = ground (arith, opt_real s.min_value, opt_real s.max_value)

sample_guard :
    {D : Type 0} (m : SampleBatchMessage D) (s : SensorSample D)
    → as_text (param 8 (bound (sample_bindings m s) [])) ≡ s.sensor_uid
unfolding bound sample_bindings param
sample_guard m s = ground arith

module _ {D : Type 0} (fails : ℕ → Bool) where
  Law-eq : (m : Action D) (e f : Db D → Db D) → ((db : Db D) → e db ≡ f db) → Law m e → Law m f
  Law-eq m e f h l = record { saved = l.saved; done = λ c t. l.done c t ∙ h c.db }

  machine-Law :
      (r : MachineRow)
      → r.first_seen_utc_ms ≡ r.last_seen_utc_ms
      → Law {D = D}
          (upsert_machine fails r.machine_id r.hostname r.display_name r.last_seen_utc_ms
            r.extra_json)
          (put_machine r)
  unfolding upsert_machine
  machine-Law r e =
      Law-eq _ _ _ (machine_effect D r e) (run_statement-Law fails upsert_machine_catalog _)

  collector-Law :
      (r : CollectorRow)
      → Law {D = D}
          (upsert_collector fails r.collector_id r.machine_id r.source r.collector_type r.status
            r.last_hello_utc_ms r.last_sample_utc_ms r.last_error r.updated_utc_ms r.extra_json)
          (put_collector r)
  unfolding upsert_collector
  collector-Law r =
      Law-eq _ _ _ (collector_effect D r) (run_statement-Law fails upsert_collector_health _)

  sensor-Law :
      (m : CatalogSnapshotMessage) (s : CatalogSensor)
      → Law {D = D} (upsert_catalog_sensor fails m s) (put_sensor (catalog_row m.envelope s))
  unfolding upsert_catalog_sensor
  sensor-Law m s =
      Law-eq _ _ _ (sensor_effect D m.envelope s) (run_statement-Law fails upsert_sensor_catalog _)

  sample_effect :
      (m : SampleBatchMessage D) (s : SensorSample D) (db : Db D)
      → execute insert_sensor_samples (bound (sample_bindings m s) []) db
        ≡ put_sample (batch_row m s) db
  unfolding execute put_sample
  sample_effect m s db = rw (sample_guard m s, sample_row-bindings m s)

  sample-Law :
      (m : SampleBatchMessage D) (s : SensorSample D)
      → Law (insert_sensor_sample fails m s) (put_sample (batch_row m s))
  unfolding insert_sensor_sample
  sample-Law m s =
      Law-eq _ _ _ (sample_effect m s) (run_statement-Law fails insert_sensor_samples _)

  -- `HandlePipeMessage` of service.cpp, for a message that was parsed.
  unfoldable pub persist : BridgeMessage D → Action D
  persist (hello m) = upsert_hello fails m
  persist (catalog_snapshot m) = upsert_catalog_snapshot fails m
  persist (sample_batch m) = insert_sample_batch fails m
  persist (heartbeat m) = upsert_heartbeat fails m

  -- A bridge message, of any type and on a connection with no open transaction, is stored whole or not
  -- at all, whichever calls of SQLite fail: if it is acknowledged, the tables are `effect m` of what
  -- they were and no transaction is left open; if not, what survives is what was there before.
  pub persist-Atomic :
      (m : BridgeMessage D) (c : Conn D) → Idle c → Atomic c.db (effect m) (persist m c)
  unfolding persist effect
  persist-Atomic (hello m) c idle =
      unfold upsert_hello in
      transaction-Atomic fails _ _ c
        (both-Law _ _ _ _ (machine-Law (hello_machine m) refl) (collector-Law _)) idle
  persist-Atomic (catalog_snapshot m) c idle =
      unfold upsert_catalog_snapshot in
      transaction-Atomic fails _ _ c
        (both-Law _ _ _ _ (machine-Law (seen_machine m.envelope m.envelope.sent_at_utc_ms) refl)
          (both-Law _ _ _ _ (collector-Law _) (for_each-Law _ _ (sensor-Law m) m.sensors)))
        idle
  persist-Atomic (sample_batch m) c idle =
      unfold insert_sample_batch in
      transaction-Atomic fails _ _ c
        (both-Law _ _ _ _ (machine-Law (seen_machine m.envelope m.sample_time_utc_ms) refl)
          (both-Law _ _ _ _ (collector-Law _) (for_each-Law _ _ (sample-Law m) m.samples)))
        idle
  persist-Atomic (heartbeat m) c idle =
      unfold upsert_heartbeat in
      transaction-Atomic fails _ _ c
        (both-Law _ _ _ _ (machine-Law (seen_machine m.envelope m.envelope.sent_at_utc_ms) refl)
          (collector-Law _))
        idle
