-- ===== src/Store/Queries/History.antt =====
-- The rows that `QuerySensorHistory` gives, and their order.
use mathlib.Core.Bool.{Bool}
use mathlib.Core.List.{Permᴰ}
use mathlib.Core.List.Permᴰ
use capacity_agent.Base.{ℕ, ◌≡◌, refl, inl, inr, Bool-cases, List, [], ◌∷◌, take, Text, arith}
use capacity_agent.Base.Int.{ℤ, ◌≤ℤ◌}
use capacity_agent.Store.Tables.{SampleRow, Db}
use capacity_agent.Store.Queries.{select, insert, order_by, newer, in_window, query_sensor_history}

module _ {D : Type 0} where
  -- No row is newer than the instant.
  abbrev pub AllUpTo : ℤ → List (SampleRow D) → Type 0
  AllUpTo m [] = Unit {0}
  AllUpTo m (s ∷ rows) = (s.ts_utc_ms ≤ℤ m) × AllUpTo m rows

  abbrev pub NewestFirst : List (SampleRow D) → Type 0
  NewestFirst [] = Unit {0}
  NewestFirst (s ∷ rows) = AllUpTo s.ts_utc_ms rows × NewestFirst rows

  AllUpTo-mono : (m n : ℤ) (rows : List (SampleRow D)) → m ≤ℤ n → AllUpTo m rows → AllUpTo n rows
  AllUpTo-mono m n [] h a = tt
  AllUpTo-mono m n (s ∷ rows) h a = (omega arith, AllUpTo-mono m n rows h a.1)

  insert-AllUpTo :
      (m : ℤ) (s : SampleRow D) (rows : List (SampleRow D))
      → s.ts_utc_ms ≤ℤ m
      → AllUpTo m rows
      → AllUpTo m (insert newer s rows)
  unfolding insert
  insert-AllUpTo m s [] h a = (h, tt)
  insert-AllUpTo m s (t ∷ rows) h a = elim (Bool-cases (newer t s)) [
    | inl e ↦ rw e (a.0, insert-AllUpTo m s rows h a.1)
    | inr e ↦ rw e (h, a)
  ]

  insert-NewestFirst :
      (s : SampleRow D) (rows : List (SampleRow D))
      → NewestFirst rows
      → NewestFirst (insert newer s rows)
  unfolding insert
  insert-NewestFirst s [] h = (tt, tt)
  insert-NewestFirst s (t ∷ rows) h = elim (Bool-cases (newer t s)) [
    | inl e ↦ rw e (
      insert-AllUpTo t.ts_utc_ms s rows (unfold newer in ground arith) h.0,
      insert-NewestFirst s rows h.1,
    )
    | inr e ↦
        let le : t.ts_utc_ms ≤ℤ s.ts_utc_ms = unfold newer in ground arith in
        rw e ((le, AllUpTo-mono t.ts_utc_ms s.ts_utc_ms rows le h.0), h)
  ]

  order_by-NewestFirst : (rows : List (SampleRow D)) → NewestFirst (order_by newer rows)
  unfolding order_by
  order_by-NewestFirst [] = tt
  order_by-NewestFirst (s ∷ rows) = insert-NewestFirst s _ (order_by-NewestFirst rows)

module _ {A : Type 0} (before : A → A → Bool) where
  insert-Permᴰ : (a : A) (as' : List A) → Permᴰ (insert before a as') (a ∷ as')
  unfolding insert
  insert-Permᴰ a [] = Permᴰ.cons refl Permᴰ.nil
  insert-Permᴰ a (b ∷ bs) = elim (Bool-cases (before b a)) [
    | inl e ↦ rw e (Permᴰ.trans (Permᴰ.cons refl (insert-Permᴰ a bs)) (Permᴰ.swap refl refl))
    | inr e ↦ rw e (Permᴰ.refl (a ∷ b ∷ bs))
  ]

  order_by-Permᴰ : (as' : List A) → Permᴰ (order_by before as') as'
  unfolding order_by
  order_by-Permᴰ [] = Permᴰ.nil
  order_by-Permᴰ (a ∷ as') =
      Permᴰ.trans (insert-Permᴰ a (order_by before as')) (Permᴰ.cons refl (order_by-Permᴰ as'))

-- The rows that the query may give: the stored ones of the sensor and of the window, in some order in
-- which no row is older than a later one, and of these the first `limit`.
pub record Window {D : Type 0} (uid : Text) (from_ms to_ms : ℤ) (limit : ℕ) (db : Db D)
    (rows : List (SampleRow D)) : Type 0 where
  pub matching : List (SampleRow D)
  pub inside : Permᴰ matching (select (in_window uid from_ms to_ms) db.sensor_samples)
  pub newest_first : NewestFirst matching
  pub first : rows ≡ take limit matching

pub query_sensor_history-Window :
    {D : Type 0} (uid : Text) (from_ms to_ms : ℤ) (limit : ℕ) (db : Db D)
    → Window uid from_ms to_ms limit db (query_sensor_history uid from_ms to_ms limit db)
unfolding query_sensor_history
query_sensor_history-Window uid from_ms to_ms limit db = record {
  matching = order_by newer (select (in_window uid from_ms to_ms) db.sensor_samples);
  inside = order_by-Permᴰ newer _;
  newest_first = order_by-NewestFirst _;
  first = refl;
}
