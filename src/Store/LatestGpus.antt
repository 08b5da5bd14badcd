-- ===== src/Store/LatestGpus.antt =====
-- The GPU rows that `QueryLatestSnapshot` gives after rows of one instant have been stored.
pub mod Query
use capacity_agent.Base.{
  ℕ, ◌≡◌, ◌⊎◌, refl, sym, ap, ◌∙◌, inl, inr, Bool, true, false, Bool-cases, Option, none, some,
  List, [], ◌∷◌, ◌++◌, Text, text_eq, if◌then◌else◌, arith,
}
use mathlib.Core.List.{append-nil, append_assoc}
use capacity_agent.Base.Int.{ℤ, pos, ltb_ℤ, ◌≤ℤ◌}
use capacity_agent.Store.Tables.{GpuRow, Db, remove_same, replace, int_eq}
use capacity_agent.Store.Statements.{same_gpu}
use capacity_agent.Store.Atomic.{each}
use capacity_agent.Store.Direct.{put_gpu}
use capacity_agent.Store.Queries.{select, insert, order_by, max_ts, query_latest_gpus}

select-append :
    {A : Type 0} (p : A → Bool) (xs ys : List A) → select p (xs ++ ys) ≡ select p xs ++ select p ys
select-append p [] ys = refl
select-append p (x ∷ xs) ys = elim (Bool-cases (p x)) [
  | inl e ↦ rw e (ap (λ (l : List _). x ∷ l) (select-append p xs ys))
  | inr e ↦ rw e (select-append p xs ys)
]

select-remove_same :
    {R : Type 0} (same : R → R → Bool) (p : R → Bool) (new : R) (rows : List R)
    → select p (remove_same same new rows) ≡ remove_same same new (select p rows)
unfolding remove_same
select-remove_same same p new [] = refl
select-remove_same same p new (row ∷ rows) = ground (arith, select-remove_same same p new rows)

module _ {D : Type 0} where
  abbrev pub put_all : List (GpuRow D) → List (GpuRow D) → List (GpuRow D)
  put_all [] rows = rows
  put_all (new ∷ news) rows = put_all news (replace same_gpu new rows)

  -- No row is replaced by a later one of the list.
  abbrev pub AllOthers : GpuRow D → List (GpuRow D) → Type 0
  AllOthers new [] = Unit {0}
  AllOthers new (row ∷ rows) = (same_gpu row new ≡ false) × AllOthers new rows

  remove_same-AllOthers :
      (new : GpuRow D) (rows : List (GpuRow D))
      → AllOthers new rows
      → remove_same same_gpu new rows ≡ rows
  unfolding remove_same
  remove_same-AllOthers new [] h = refl
  remove_same-AllOthers new (row ∷ rows) (e, h) =
      rw e (ap (λ (l : List (GpuRow D)). row ∷ l) (remove_same-AllOthers new rows h))

  abbrev pub Distinct : List (GpuRow D) → List (GpuRow D) → Type 0
  Distinct before [] = Unit {0}
  Distinct before (new ∷ news) = AllOthers new before × Distinct (before ++ new ∷ []) news

  pub put_all-Distinct :
      (before news : List (GpuRow D)) → Distinct before news → put_all news before ≡ before ++ news
  unfolding replace
  put_all-Distinct before [] h = sym (append-nil before)
  put_all-Distinct before (new ∷ news) (o, h) =
      ap (put_all news)
        (ap (λ (l : List (GpuRow D)). l ++ new ∷ []) (remove_same-AllOthers new before o))
      ∙ put_all-Distinct (before ++ new ∷ []) news h
      ∙ append_assoc before (new ∷ []) news

abbrev pub of_machine : {D : Type 0} → Text → GpuRow D → Bool
of_machine machine_id g = text_eq g.machine_id machine_id

abbrev pub is_now : {D : Type 0} → ℤ → GpuRow D → Bool
is_now now g = int_eq g.ts_utc_ms now

abbrev pub NoneLater : {D : Type 0} → ℤ → List (GpuRow D) → Type 0
NoneLater now [] = Unit {0}
NoneLater now (row ∷ rows) = (row.ts_utc_ms ≤ℤ now) × NoneLater now rows

module _ {D : Type 0} (machine_id : Text) (now : ℤ) where
  -- The rows of the machine at the instant.
  abbrev pub current : List (GpuRow D) → List (GpuRow D)
  current rows = select (is_now now) (select (of_machine machine_id) rows)

  current-replace :
      (new : GpuRow D) (rows : List (GpuRow D))
      → of_machine machine_id new ≡ true
      → is_now now new ≡ true
      → current (replace same_gpu new rows) ≡ replace same_gpu new (current rows)
  unfolding replace
  current-replace new rows m n =
      ap (select (is_now now))
        (select-append (of_machine machine_id) (remove_same same_gpu new rows) (new ∷ []))
      ∙ select-append (is_now now) (select (of_machine machine_id) (remove_same same_gpu new rows))
          _
      ∙ rw
          (
            select-remove_same same_gpu (of_machine machine_id) new rows,
            select-remove_same same_gpu (is_now now) new (select (of_machine machine_id) rows),
            m,
            n,
          )
          refl

  -- New rows of the machine at the instant.
  abbrev pub AllNew : List (GpuRow D) → Type 0
  AllNew [] = Unit {0}
  AllNew (new ∷ news) = (of_machine machine_id new ≡ true) × (is_now now new ≡ true) × AllNew news

  pub current-put_all :
      (news rows : List (GpuRow D))
      → AllNew news
      → current (put_all news rows) ≡ put_all news (current rows)
  current-put_all [] rows h = refl
  current-put_all (new ∷ news) rows (m, n, h) =
      current-put_all news (replace same_gpu new rows) h
      ∙ ap (put_all news) (current-replace new rows m n)

  -- No row of the machine is later than the instant, or as late.
  abbrev pub AllOlder : List (GpuRow D) → Type 0
  AllOlder [] = Unit {0}
  AllOlder (row ∷ rows) =
      (of_machine machine_id row ≡ true → ltb_ℤ row.ts_utc_ms now ≡ true) × AllOlder rows

  pub AllOlder-NoneLater :
      (rows : List (GpuRow D)) → AllOlder rows → NoneLater now (select (of_machine machine_id) rows)
  AllOlder-NoneLater [] h = tt
  AllOlder-NoneLater (row ∷ rows) (o, h) = elim (Bool-cases (of_machine machine_id row)) [
    | inl e ↦ rw e (let l = o e in ground arith, AllOlder-NoneLater rows h)
    | inr e ↦ rw e (AllOlder-NoneLater rows h)
  ]

  pub AllOlder-current : (rows : List (GpuRow D)) → AllOlder rows → current rows ≡ []
  unfolding int_eq
  AllOlder-current [] h = refl
  AllOlder-current (row ∷ rows) (o, h) = elim (Bool-cases (of_machine machine_id row)) [
    | inl e ↦
        let l = o e in
        let n : is_now now row ≡ false = ground arith in rw (e, n) (AllOlder-current rows h)
    | inr e ↦ rw e (AllOlder-current rows h)
  ]

  NoneLater-append :
      (xs ys : List (GpuRow D)) → NoneLater now xs → NoneLater now ys → NoneLater now (xs ++ ys)
  NoneLater-append [] ys h g = g
  NoneLater-append (x ∷ xs) ys (a, h) g = (a, NoneLater-append xs ys h g)

  NoneLater-remove_same :
      (new : GpuRow D) (rows : List (GpuRow D))
      → NoneLater now rows
      → NoneLater now (remove_same same_gpu new rows)
  unfolding remove_same
  NoneLater-remove_same new [] h = tt
  NoneLater-remove_same new (row ∷ rows) (a, h) = elim (Bool-cases (same_gpu row new)) [
    | inl e ↦ rw e (NoneLater-remove_same new rows h)
    | inr e ↦ rw e (a, NoneLater-remove_same new rows h)
  ]

  pub NoneLater-put_all :
      (news rows : List (GpuRow D))
      → AllNew news
      → NoneLater now (select (of_machine machine_id) rows)
      → NoneLater now (select (of_machine machine_id) (put_all news rows))
  unfolding replace int_eq
  NoneLater-put_all [] rows h g = g
  NoneLater-put_all (new ∷ news) rows (m, n, h) g =
      NoneLater-put_all news (replace same_gpu new rows) h (
        rw
          (
            select-append (of_machine machine_id) (remove_same same_gpu new rows) (new ∷ []),
            select-remove_same same_gpu (of_machine machine_id) new rows,
            m,
          )
          (NoneLater-append _ (new ∷ [])
            (NoneLater-remove_same new (select (of_machine machine_id) rows) g) (ground arith, tt)))
