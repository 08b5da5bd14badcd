-- ===== src/Store/Consistent.antt =====
-- The samples of the store and the sensors that they refer to.
use capacity_agent.Base.{
  ℕ, ◌≡◌, refl, sym, ◌∙◌, inl, inr, Bool, true, Bool-cases, ◌&&◌, Option, none, some, List, [], ◌∷◌,
  Text, arith,
}
use mathlib.Core.Path.{subst}
use capacity_agent.Bridge.Messages.{BridgeMessage, hello, catalog_snapshot, sample_batch, heartbeat}
use capacity_agent.Store.Tables.{SensorRow, SampleRow, Db, upsert, find_row, remove_same, replace}
use capacity_agent.Store.Statements.{sensor_key, merge_sensor, same_sample, in_catalog}
use capacity_agent.Base.Options.{is_some}
use capacity_agent.Store.Connection.{Conn, Action, open_if_needed, begin, call, transaction}
use capacity_agent.Store.Writes.{
  upsert_hello, upsert_catalog_snapshot, insert_sample_batch, upsert_heartbeat,
}
use capacity_agent.Store.Atomic.{each}
use capacity_agent.Store.Transaction.{durable, Idle}
use capacity_agent.Store.Effects.{
  put_machine, put_collector, put_sensor, put_sample, catalog_row, batch_row, effect,
}
use capacity_agent.Store.Persist.{persist, persist-Atomic}

-- Every sample is of a sensor in the catalog.
unfoldable pub all_known : {D : Type 0} → List SensorRow → List (SampleRow D) → Bool
all_known catalog [] = true
all_known catalog (s ∷ samples) =
    is_some (find_row sensor_key s.sensor_uid catalog) && all_known catalog samples

unfoldable pub Consistent : {D : Type 0} → Db D → Type 0
Consistent db = all_known db.sensor_catalog db.sensor_samples ≡ true

module _ {R : Type 0} (key : R → Text) (merge : R → R → R)
    (kept : (old new : R) → key (merge old new) ≡ key old) where
  -- An upsert loses no key.
  pub find_row-upsert :
      (new : R) (k : Text) (rows : List R)
      → is_some (find_row key k rows) ≡ true
      → is_some (find_row key k (upsert key merge new rows)) ≡ true
  unfolding find_row upsert
  find_row-upsert new k [] h = cc
  find_row-upsert new k (old ∷ rows) h = ground (arith, find_row-upsert new k rows, kept old new)

module _ {D : Type 0} where
  all_known-upsert :
      (new : SensorRow) (catalog : List SensorRow) (samples : List (SampleRow D))
      → all_known catalog samples ≡ true
      → all_known (upsert sensor_key merge_sensor new catalog) samples ≡ true
  unfolding all_known merge_sensor
  all_known-upsert new catalog [] h = refl
  all_known-upsert new catalog (s ∷ samples) h = ground (
    arith,
    all_known-upsert new catalog samples,
    find_row-upsert sensor_key merge_sensor (λ old new. refl) new s.sensor_uid catalog,
  )

  all_known-replace :
      (new : SampleRow D) (catalog : List SensorRow) (samples : List (SampleRow D))
      → is_some (find_row sensor_key new.sensor_uid catalog) ≡ true
      → all_known catalog samples ≡ true
      → all_known catalog (replace same_sample new samples) ≡ true
  unfolding all_known replace remove_same
  all_known-replace new catalog [] k h = ground arith
  all_known-replace new catalog (s ∷ samples) k h =
      ground (arith, all_known-replace new catalog samples k)

  put_sensor-Consistent :
      (row : SensorRow) (db : Db D) → Consistent db → Consistent (put_sensor row db)
  unfolding put_sensor Consistent
  put_sensor-Consistent row db h = all_known-upsert row db.sensor_catalog db.sensor_samples h

  put_sample-Consistent :
      (row : SampleRow D) (db : Db D) → Consistent db → Consistent (put_sample row db)
  unfolding put_sample Consistent in_catalog
  put_sample-Consistent row db h =
      elim (Bool-cases (is_some (find_row sensor_key row.sensor_uid db.sensor_catalog))) [
        | inl t ↦ rw t (all_known-replace row db.sensor_catalog db.sensor_samples t h)
        | inr f ↦ rw f h
      ]

  each-Consistent :
      {A : Type 0} (f : A → Db D → Db D)
      → ((a : A) (db : Db D) → Consistent db → Consistent (f a db))
      → (as' : List A) (db : Db D) → Consistent db
      → Consistent (each f as' db)
  each-Consistent f k [] db h = h
  each-Consistent f k (a ∷ as') db h = each-Consistent f k as' (f a db) (k a db h)

  -- The effect of a message, of any type, leaves every sample with its sensor in the catalog.
  pub effect-Consistent :
      (m : BridgeMessage D) (db : Db D) → Consistent db → Consistent (effect m db)
  unfolding effect Consistent put_machine put_collector
  effect-Consistent (hello m) db h = h
  effect-Consistent (catalog_snapshot m) db h =
      each-Consistent _ (λ s. put_sensor-Consistent (catalog_row m.envelope s)) m.sensors _ h
  effect-Consistent (sample_batch m) db h =
      each-Consistent _ (λ s. put_sample-Consistent (batch_row m s)) m.samples _ h
  effect-Consistent (heartbeat m) db h = h

module _ {D : Type 0} (fails : ℕ → Bool) where
  -- While a transaction is left open by a rollback that failed, BEGIN is refused and nothing changes.
  blocked :
      (body : Action D) (s : Db D) (c : Conn D)
      → c.saved ≡ some s
      → durable (transaction fails body c).1 ≡ s
  unfolding transaction open_if_needed begin call
  blocked body s c h = ground arith

  persist_blocked :
      (m : BridgeMessage D) (s : Db D) (c : Conn D)
      → c.saved ≡ some s
      → durable (persist fails m c).1 ≡ s
  unfolding persist
  persist_blocked (hello m) s c h = unfold upsert_hello in blocked _ s c h
  persist_blocked (catalog_snapshot m) s c h = unfold upsert_catalog_snapshot in blocked _ s c h
  persist_blocked (sample_batch m) s c h = unfold insert_sample_batch in blocked _ s c h
  persist_blocked (heartbeat m) s c h = unfold upsert_heartbeat in blocked _ s c h

  atomic-Consistent :
      (m : BridgeMessage D) (c : Conn D)
      → Idle c
      → Consistent c.db
      → Consistent (durable (persist fails m c).1)
  atomic-Consistent m c idle h =
      let a = persist-Atomic fails m c idle in
      elim (Bool-cases (persist fails m c).0) [
        | inl t ↦
            subst Consistent (sym (idle_durable (persist fails m c).1 (a.all t).1 ∙ (a.all t).0))
              (effect-Consistent m c.db h)
        | inr f ↦ subst Consistent (sym (a.nothing f)) h
      ]
    where
      idle_durable : (d : Conn D) → d.saved ≡ none → durable d ≡ d.db
      idle_durable d e = ground arith

  -- Whatever message arrives, on a connection in any state, and whichever calls of SQLite fail: if
  -- every sample that would survive has its sensor in the catalog, then that is so afterwards.
  pub persist-Consistent :
      (m : BridgeMessage D) (c : Conn D)
      → Consistent (durable c)
      → Consistent (durable (persist fails m c).1)
  persist-Consistent m c h = go c.saved refl
    where
      go : (o : Option (Db D)) → c.saved ≡ o → Consistent (durable (persist fails m c).1)
      go none e = atomic-Consistent m c e (rw e at h)
      go (some s) e = subst Consistent (sym (persist_blocked m s c e)) (rw e at h)
