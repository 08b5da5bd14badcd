-- ===== src/Store/Timeline.antt =====
-- When a machine was first and last seen, over the messages that arrive.
use mathlib.Core.Path.{subst}
use capacity_agent.Base.{
  Bool, true, ℕ, ◌≡◌, refl, sym, ap, ◌∙◌, inl, inr, Bool-cases, some, List, [], ◌∷◌, Text, text_eq,
  arith,
}
use capacity_agent.Base.Options.{some_inj}
use capacity_agent.Base.Int.{ℤ, ◌≤ℤ◌}
use capacity_agent.Bridge.Messages.{BridgeMessage, hello, catalog_snapshot, sample_batch, heartbeat}
use capacity_agent.Bridge.Parser.Accepts.{envelope_of}
use capacity_agent.Store.Tables.{MachineRow, SampleRow, Db, upsert, find_row, later}
use capacity_agent.Store.Statements.{machine_key, merge_machine}
use capacity_agent.Store.Atomic.{each}
use capacity_agent.Store.Connection.{Conn}
use capacity_agent.Store.Transaction.{Idle}
use capacity_agent.Store.Persist.{persist, persist-Atomic}
use capacity_agent.Store.Effects.{
  put_machine, put_collector, put_sensor, put_sample, hello_machine, seen_machine, batch_row,
  effect,
}

module _ {R : Type 0} (key : R → Text) (merge : R → R → R)
    (kept : (old new : R) → key (merge old new) ≡ key old) where
  -- After an upsert over a row, the merged row stands under its key.
  pub find_row-upsert_over :
      (new old : R) (rows : List R)
      → find_row key (key new) rows ≡ some old
      → find_row key (key new) (upsert key merge new rows) ≡ some (merge old new)
  unfolding find_row upsert
  find_row-upsert_over new old [] h = cc
  find_row-upsert_over new old (row ∷ rows) h = elim (Bool-cases (text_eq (key row) (key new))) [
    | inl e ↦
        let f : row ≡ old = some_inj (rw e at h) in
        rw (e, kept row new, e) (ap (λ r. some (merge r new)) f)
    | inr e ↦ rw (e, e) (find_row-upsert_over new old rows (rw e at h))
  ]

later-≥ : (new old : ℤ) → (new ≤ℤ later new old) × (old ≤ℤ later new old)
unfolding later
later-≥ new old = ground arith

module _ {D : Type 0} where
  each-machine_catalog :
      {A : Type 0} (f : A → Db D → Db D)
      → ((a : A) (db : Db D) → (f a db).machine_catalog ≡ db.machine_catalog)
      → (as' : List A) (db : Db D) → (each f as' db).machine_catalog ≡ db.machine_catalog
  each-machine_catalog f k [] db = refl
  each-machine_catalog f k (a ∷ as') db = each-machine_catalog f k as' (f a db) ∙ k a db

  machine_catalog-put_sample :
      (row : SampleRow D) (db : Db D) → (put_sample row db).machine_catalog ≡ db.machine_catalog
  unfolding put_sample
  machine_catalog-put_sample row db = ground arith

  -- The row that a message writes to machine_catalog.
  unfoldable pub machine_of : BridgeMessage D → MachineRow
  machine_of (hello m) = hello_machine m
  machine_of (catalog_snapshot m) = seen_machine m.envelope m.envelope.sent_at_utc_ms
  machine_of (sample_batch m) = seen_machine m.envelope m.sample_time_utc_ms
  machine_of (heartbeat m) = seen_machine m.envelope m.envelope.sent_at_utc_ms

  machine_catalog-effect :
      (m : BridgeMessage D) (db : Db D)
      → (effect m db).machine_catalog
        ≡ upsert machine_key merge_machine (machine_of m) db.machine_catalog
  unfolding effect put_machine put_collector machine_of
  machine_catalog-effect (hello m) db = refl
  machine_catalog-effect (catalog_snapshot m) db =
      each-machine_catalog _ (λ s d. unfold put_sensor in refl) m.sensors _
  machine_catalog-effect (sample_batch m) db =
      each-machine_catalog _ (λ s d. machine_catalog-put_sample (batch_row m s) d) m.samples _
  machine_catalog-effect (heartbeat m) db = refl

  machine_of_envelope :
      (m : BridgeMessage D) → (machine_of m).machine_id ≡ (envelope_of m).machine_id
  unfolding machine_of
  machine_of_envelope (hello m) = refl
  machine_of_envelope (catalog_snapshot m) = refl
  machine_of_envelope (sample_batch m) = refl
  machine_of_envelope (heartbeat m) = refl

  -- The time that a message gives: that of its samples, or of its sending.
  abbrev pub time_of : BridgeMessage D → ℤ
  time_of (hello m) = m.envelope.sent_at_utc_ms
  time_of (catalog_snapshot m) = m.envelope.sent_at_utc_ms
  time_of (sample_batch m) = m.sample_time_utc_ms
  time_of (heartbeat m) = m.envelope.sent_at_utc_ms

  machine_of_time : (m : BridgeMessage D) → (machine_of m).last_seen_utc_ms ≡ time_of m
  unfolding machine_of
  machine_of_time (hello m) = refl
  machine_of_time (catalog_snapshot m) = refl
  machine_of_time (sample_batch m) = refl
  machine_of_time (heartbeat m) = refl

  -- How the row of a machine goes on: first seen when it was, and last seen no earlier than before and
  -- than the time that the message gives.
  pub record Continues (old : MachineRow) (m : BridgeMessage D) (new : MachineRow) : Type 0 where
    pub same_machine : new.machine_id ≡ old.machine_id
    pub first_kept : new.first_seen_utc_ms ≡ old.first_seen_utc_ms
    pub last_kept : old.last_seen_utc_ms ≤ℤ new.last_seen_utc_ms
    pub last_reached : time_of m ≤ℤ new.last_seen_utc_ms

  effect-Continues :
      (m : BridgeMessage D) (db : Db D) (old : MachineRow)
      → find_row machine_key (envelope_of m).machine_id db.machine_catalog ≡ some old
      → (new : MachineRow) × (find_row machine_key
            (envelope_of m).machine_id
            (effect m db).machine_catalog
          ≡ some new)
        × Continues old m new
  unfolding merge_machine
  effect-Continues m db old h =
      let row = machine_of m in
      let found : find_row machine_key row.machine_id db.machine_catalog ≡ some old =
        rw (machine_of_envelope m) h in
      (
        merge_machine old row,
        rw (sym (machine_of_envelope m), machine_catalog-effect m db)
            (find_row-upsert_over machine_key merge_machine (λ o n. refl) row old db.machine_catalog
              found),
        record {
          same_machine = refl;
          first_kept = refl;
          last_kept = (later-≥ row.last_seen_utc_ms old.last_seen_utc_ms).1;
          last_reached =
              let reached = (later-≥ row.last_seen_utc_ms old.last_seen_utc_ms).0 in
              subst (λ t. t ≤ℤ later row.last_seen_utc_ms old.last_seen_utc_ms) (machine_of_time m)
                reached;
        },
      )

  -- If the function of the store for a message, of any type, on a connection with no open transaction
  -- returns true, whichever calls of SQLite fail, and the machine of the message had a row before, then
  -- it has one after, with the same time when it was first seen, and with a time when it was last seen that
  -- is neither before the old one nor before the time that the message gives.
  pub persist-Continues :
      (fails : ℕ → Bool) (m : BridgeMessage D) (c : Conn D) (old : MachineRow)
      → Idle c
      → (persist fails m c).0 ≡ true
      → find_row machine_key (envelope_of m).machine_id c.db.machine_catalog ≡ some old
      → (new : MachineRow) × (find_row machine_key
            (envelope_of m).machine_id
            (persist fails m c).1.db.machine_catalog
          ≡ some new)
        × Continues old m new
  persist-Continues fails m c old idle acknowledged h =
      let stored = ((persist-Atomic fails m c idle).all acknowledged).0 in
      let after = effect-Continues m c.db old h in
      (
        after.0,
        ap (λ db. find_row machine_key (envelope_of m).machine_id db.machine_catalog) stored
            ∙ after.1,
        after.2,
      )
