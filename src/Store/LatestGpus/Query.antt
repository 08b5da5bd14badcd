-- ===== src/Store/LatestGpus/Query.antt =====
-- `QueryLatestSnapshot` of apps/host_agent/src/storage/sqlite_store.cpp: its GPU rows, after rows of one
-- instant have been stored.
use capacity_agent.Base.{
  ◌≡◌, ◌⊎◌, refl, sym, ap, ◌∙◌, inl, inr, Bool, true, false, Bool-cases, none, some, List, [], ◌∷◌,
  Text, if◌then◌else◌, arith,
}
use capacity_agent.Base.Int.{ℤ, ltb_ℤ, ◌≤ℤ◌, eq_of_parts, int_laws}
use capacity_agent.Store.Tables.{GpuRow, Db, int_eq}
use capacity_agent.Store.Queries.{select, insert, order_by, max_ts, query_latest_gpus}
use capacity_agent.Store.LatestGpus.{
  is_now, of_machine, current, put_all, AllNew, AllOlder, NoneLater, Distinct, current-put_all,
  put_all-Distinct, AllOlder-NoneLater, AllOlder-current, NoneLater-put_all,
}

eq_of_int_eq : (a b : ℤ) → int_eq a b ≡ true → a ≡ b
unfolding int_eq
eq_of_int_eq a b h = eq_of_parts a b (ground arith)

select-false :
    {A : Type 0} (p : A → Bool) (a : A) (rows : List A)
    → p a ≡ false
    → select p (a ∷ rows) ≡ select p rows
select-false p a rows e = rw e refl

later-now : (now m a : ℤ) → m ≤ℤ now → a ≡ now → (if ltb_ℤ m a then a else m) ≡ now
later-now now m a l e = rw e (grind (arith, int_laws))

keeps-now : (now a : ℤ) → a ≤ℤ now → (if ltb_ℤ now a then a else now) ≡ now
keeps-now now a l = ground arith

abbrev by_index : {D : Type 0} → GpuRow D → GpuRow D → Bool
by_index a b = ltb_ℤ a.gpu_index b.gpu_index

-- Rows of ascending indices.
abbrev pub AllAbove : {D : Type 0} → GpuRow D → List (GpuRow D) → Type 0
AllAbove row [] = Unit {0}
AllAbove row (next ∷ rows) = (by_index row next ≡ true) × AllAbove row rows

abbrev pub Ascends : {D : Type 0} → List (GpuRow D) → Type 0
Ascends [] = Unit {0}
Ascends (row ∷ rows) = AllAbove row rows × Ascends rows

insert-AllAbove :
    {D : Type 0} (row : GpuRow D) (rows : List (GpuRow D))
    → AllAbove row rows
    → insert by_index row rows ≡ row ∷ rows
unfolding insert
insert-AllAbove row [] h = refl
insert-AllAbove row (next ∷ rows) (l, h) =
    let n : by_index next row ≡ false = ground arith in rw n refl

order_by-Ascends :
    {D : Type 0} (rows : List (GpuRow D)) → Ascends rows → order_by by_index rows ≡ rows
unfolding order_by
order_by-Ascends [] h = refl
order_by-Ascends (row ∷ rows) (a, h) = rw (order_by-Ascends rows h) (insert-AllAbove row rows a)

module _ {D : Type 0} (machine_id : Text) (now : ℤ) where
  max_ts-NoneLater :
      (rows : List (GpuRow D))
      → NoneLater now rows
      → (max_ts (λ (g : GpuRow D). g.ts_utc_ms) rows ≡ none)
        ⊎ ((m : ℤ) × (max_ts (λ (g : GpuRow D). g.ts_utc_ms) rows ≡ some m) × (m ≤ℤ now))
  unfolding max_ts
  max_ts-NoneLater [] h = inl refl
  max_ts-NoneLater (row ∷ rows) (a, h) = elim (max_ts-NoneLater rows h) [
    | inl e ↦ inr (row.ts_utc_ms, rw e refl, a)
    | inr (m, e, l) ↦
        inr (if ltb_ℤ m row.ts_utc_ms then row.ts_utc_ms else m, rw e refl, ground arith)
  ]

  max_ts-now :
      (rows : List (GpuRow D)) {x : GpuRow D} {xs : List (GpuRow D)}
      → NoneLater now rows
      → select (is_now now) rows ≡ x ∷ xs
      → max_ts (λ (g : GpuRow D). g.ts_utc_ms) rows ≡ some now
  unfolding max_ts int_eq
  max_ts-now [] h e = cc
  max_ts-now (row ∷ rows) (a, h) e = elim (Bool-cases (is_now now row)) [
    | inl y ↦
        let same = eq_of_int_eq _ _ y in
        elim (max_ts-NoneLater rows h) [
          | inl z ↦ rw z (ap some same)
          | inr (m, z, l) ↦ rw z (ap some (later-now now m row.ts_utc_ms l same))
        ]
    | inr n ↦
        rw (max_ts-now rows h (sym (select-false (is_now now) row rows n) ∙ e))
          (ap some (keeps-now now row.ts_utc_ms a))
  ]

  query-now :
      (db : Db D)
      → max_ts (λ (g : GpuRow D). g.ts_utc_ms) (select (of_machine machine_id) db.gpu_samples)
        ≡ some now
      → query_latest_gpus machine_id db ≡ order_by by_index (current machine_id now db.gpu_samples)
  unfolding query_latest_gpus order_by
  query-now db e = rw (query_latest_gpus, e) refl

  -- Rows of ascending indices that are stored at an instant at which the machine has no other are what
  -- the query gives, if the machine has no later row either.
  pub latest-put_all :
      (db : Db D) (rows : List (GpuRow D)) (new : GpuRow D) (news : List (GpuRow D))
      → AllOlder machine_id now rows
      → AllNew machine_id now (new ∷ news)
      → Distinct [] (new ∷ news)
      → Ascends (new ∷ news)
      → db.gpu_samples ≡ put_all (new ∷ news) rows
      → query_latest_gpus machine_id db ≡ new ∷ news
  latest-put_all db rows new news o h d a e =
      let at_now : current machine_id now (put_all (new ∷ news) rows) ≡ new ∷ news =
        current-put_all machine_id now (new ∷ news) rows h
        ∙ rw (AllOlder-current machine_id now rows o) (put_all-Distinct [] (new ∷ news) d) in
      let latest =
        max_ts-now (select (of_machine machine_id) (put_all (new ∷ news) rows))
          (NoneLater-put_all machine_id now (new ∷ news) rows h
            (AllOlder-NoneLater machine_id now rows o))
          at_now in
      query-now db (
        ap (λ l. max_ts (λ (g : GpuRow D). g.ts_utc_ms) (select (of_machine machine_id) l)) e
        ∙ latest)
      ∙ ap (order_by by_index) (ap (current machine_id now) e ∙ at_now)
      ∙ order_by-Ascends (new ∷ news) a
