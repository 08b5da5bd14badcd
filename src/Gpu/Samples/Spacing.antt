-- ===== src/Gpu/Samples/Spacing.antt =====
-- How far apart the samples are that the probe serves, over any sequence of calls.
use capacity_agent.Base.{
  ℕ, zero, suc, ◌+◌, ◌≤◌, ◌≡◌, refl, ap, ◌∙◌, inl, inr, sym, Bool, true, false, ◌==◌, ◌&&◌, some,
  List, [], ◌∷◌, get_elem?, set, arith, Bool-cases, if◌then◌else◌,
}
use mathlib.Core.Path.{subst}
use capacity_agent.Base.Options.{some_inj}
use capacity_agent.Base.Int.{pos}
use capacity_agent.Base.Double.{Doubles}
use capacity_agent.Gpu.Snapshot.{GpuSnapshot}
use capacity_agent.Gpu.Contexts.{GpuBackendContext, Impl}
use capacity_agent.Gpu.Samples.{
  Tier, thermal_fast, fast, medium, slow, rare, min_interval, last_of, context_at, set_context,
  touch, sample_tier,
}
use capacity_agent.Gpu.Samples.Rates.{sample_tier-HasOutcome}

abbrev pub rank : Tier → ℕ
rank thermal_fast = 0
rank fast = 1
rank medium = 2
rank slow = 3
rank rare = 4

-- One call of a sample.
pub record Sampled (D : Type 0) : Type 0 where
  pub tier : Tier
  pub gpu : ℕ
  pub now : ℕ
  pub moment : ℕ
  pub snap : GpuSnapshot D

abbrev pub same : {D : Type 0} → Tier → ℕ → Sampled D → Bool
same tier i c = (rank tier == rank c.tier) && (i == c.gpu)

-- The time of a call in front, if it is of the tier and GPU and is served.
abbrev pub next_times : Bool → Bool → ℕ → List ℕ → List ℕ
next_times watched served now rest = if watched && served then now ∷ rest else rest

module _ (d : Doubles) where
  abbrev pub call : Sampled d.Double → Impl → Bool × Impl × GpuSnapshot d.Double
  call c p = sample_tier d c.now c.moment p (pos c.gpu) c.tier c.snap

  -- The times at which a sequence of calls, of any tiers and GPUs, serves one tier and GPU.
  abbrev pub served_times : Tier → ℕ → List (Sampled d.Double) → Impl → List ℕ
  served_times tier i [] p = []
  served_times tier i (c ∷ cs) p =
      let r = call c p in next_times (same tier i c) r.0 c.now (served_times tier i cs r.1)

-- Each time is at least `n` after the one before it, and the first at least `n` after `last`.
abbrev pub Spaced : ℕ → ℕ → List ℕ → Type 0
Spaced n last [] = Unit
Spaced n last (t ∷ ts) = (last + n ≤ t) × Spaced n t ts

last_of-touch :
    (tier tier' : Tier) (t : ℕ) (g : GpuBackendContext)
    → last_of tier (touch tier' t g).last_poll
      ≡ (if rank tier == rank tier' then t else last_of tier g.last_poll)
last_of-touch thermal_fast tier' t g = ground arith
last_of-touch fast tier' t g = ground arith
last_of-touch medium tier' t g = ground arith
last_of-touch slow tier' t g = ground arith
last_of-touch rare tier' t g = ground arith

get_elem?-set {ℓ} :
    {A : Type ℓ} (xs : List A) (i j : ℕ) (v x : A)
    → get_elem? xs i ≡ some x
    → get_elem? (set xs j v) i ≡ some (if i == j then v else x)
get_elem?-set [] i j v x e = cc
get_elem?-set (y ∷ xs) zero zero v x e = refl
get_elem?-set (y ∷ xs) zero (suc j) v x e = ground arith
get_elem?-set (y ∷ xs) (suc i) zero v x e = ground arith
get_elem?-set (y ∷ xs) (suc i) (suc j) v x e = get_elem?-set xs i j v x e ∙ ground arith

-- The context of a GPU after a call that is served.
served-context :
    (tier : Tier) (i j : ℕ) (t : ℕ) (p : Impl) (g g' : GpuBackendContext)
    → context_at p (pos i) ≡ some g
    → context_at p (pos j) ≡ some g'
    → (h : GpuBackendContext) × (context_at (set_context p (pos j) (touch tier t g')) (pos i)
        ≡ some h)
      × ((tier' : Tier)
          → last_of tier' h.last_poll
            ≡ (if (rank tier' == rank tier) && (i == j) then t else last_of tier' g.last_poll))
served-context tier i j t p g g' e e' = elim (Bool-cases (i == j)) [
  | inl s ↦
      let same_index : j ≡ i = ground arith in
      let one : g' ≡ g = some_inj (sym e' ∙ (ap (λ k. get_elem? p.gpus k) same_index ∙ e)) in
      (
        touch tier t g',
        get_elem?-set p.gpus i j (touch tier t g') g e ∙ rw s refl,
        λ tier'.
            let at = last_of-touch tier' tier t g' in
            let old = ap (λ (h : GpuBackendContext). last_of tier' h.last_poll) one in ground arith,
      )
  | inr s ↦ (g, get_elem?-set p.gpus i j (touch tier t g') g e ∙ rw s refl, λ tier'. ground arith)
]

next_times_refused :
    (b : Bool) (n last now : ℕ) (rest : List ℕ)
    → Spaced n last rest
    → Spaced n last (next_times b false now rest)
next_times_refused true n last now rest h = h
next_times_refused false n last now rest h = h

next_times_served :
    (b : Bool) (n last now : ℕ) (rest : List ℕ)
    → (b ≡ true → last + n ≤ now)
    → Spaced n (if b then now else last) rest
    → Spaced n last (next_times b true now rest)
next_times_served true n last now rest h k = (h refl, k)
next_times_served false n last now rest h k = k

rank_inj : (a b : Tier) → rank a ≡ rank b → a ≡ b
rank_inj thermal_fast b h = ground arith
rank_inj fast b h = ground arith
rank_inj medium b h = ground arith
rank_inj slow b h = ground arith
rank_inj rare b h = ground arith

-- What is known of a call for its own tier and GPU, read for the tier and GPU that are watched.
same_context :
    (tier tier' : Tier) (i j now : ℕ) (p : Impl) (g g' : GpuBackendContext)
    → context_at p (pos i) ≡ some g
    → context_at p (pos j) ≡ some g'
    → last_of tier' g'.last_poll + min_interval tier' ≤ now
    → ((rank tier == rank tier') && (i == j)) ≡ true
    → last_of tier g.last_poll + min_interval tier ≤ now
same_context tier tier' i j now p g g' e e' h s =
    let same_tier : tier' ≡ tier = rank_inj tier' tier (ground arith) in
    let same_index : j ≡ i = ground arith in
    let one : g' ≡ g = some_inj (sym e' ∙ (ap (λ k. get_elem? p.gpus k) same_index ∙ e)) in
    subst (λ (t : Tier). last_of t g.last_poll + min_interval t ≤ now) same_tier
      (subst (λ (x : GpuBackendContext). last_of tier' x.last_poll + min_interval tier' ≤ now) one
        h)

-- For any sequence of calls of the samples, of any tiers and any GPUs and at any times: the calls of one tier
-- that are served for one GPU are each at least the tier's interval after the one before, and the
-- first is at least that after the last one before the sequence.
pub served_times-Spaced :
    (d : Doubles) (tier : Tier) (i : ℕ) (cs : List (Sampled d.Double)) (p : Impl)
    (g : GpuBackendContext)
    → context_at p (pos i) ≡ some g
    → Spaced (min_interval tier) (last_of tier g.last_poll) (served_times d tier i cs p)
served_times-Spaced d tier i [] p g e = tt
served_times-Spaced d tier i (c ∷ cs) p g e =
    let stay = served_times-Spaced d tier i cs p g e in
    let watched = next_times_refused (same tier i c) _ _ c.now _ stay in
    elim (sample_tier-HasOutcome d c.now c.moment p (pos c.gpu) c.tier c.snap) [
      | inl o ↦ rw o.0 watched
      | inr o ↦ elim o.2 [
        | inl r ↦ rw r.0 watched
        | inr r ↦
            let after = served-context c.tier i c.gpu c.now p g o.0 e o.1 in
            let moved = ap (λ (q : Impl). context_at q (pos i)) r.1 ∙ after.1 in
            let ih = served_times-Spaced d tier i cs (call d c p).1 after.0 moved in
            rw r.0 (
              next_times_served (same tier i c) _ _ c.now _
                (same_context tier c.tier i c.gpu c.now p g o.0 e o.1 r.2) (rw⁻¹ (after.2 tier) ih))
      ]
    ]
