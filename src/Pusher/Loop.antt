-- ===== src/Pusher/Loop.antt =====
-- `PushLoop` of apps/host_agent/src/core/snapshot_pusher.cpp.
use capacity_agent.Base.{
  ℕ, zero, suc, ◌+◌, ◌*◌, ◌<◌, ◌≤◌, ◌≡◌, ◌≢◌, refl, Bool, true, false, Option, some, List, [], ◌∷◌,
  Text, Bool-cases, inl, inr, if◌then◌else◌, arith,
}
use capacity_agent.Base.Options.{◌>>=◌}
use capacity_agent.Base.Int.{ℤ}
use capacity_agent.Pusher.{exception, parse_url}
use capacity_agent.Pusher.Pushes.{Post, Push, push_once, push_once-returns}
use capacity_agent.Collectors.Ollama.{Response}
use capacity_agent.Collectors.Ollama.Waits.{sum}
use capacity_agent.Collectors.Ollama.Laps.{rest_of_lap, rest_of_lap-long}

-- The wait before the first push: `n` rounds from `i` on, and what is slept in milliseconds.
unfoldable pub first_wait : (ℕ → Bool) → ℕ → ℕ → List ℕ
first_wait running i zero = []
first_wait running i (suc n) =
    let rest = first_wait running (suc i) n in if running i then 250 ∷ rest else []

sum-first_wait :
    (running : ℕ → Bool) (i n : ℕ)
    → (sum (first_wait running i n) ≤ n * 250)
      × (((j : ℕ) → running j ≡ true) → sum (first_wait running i n) ≡ n * 250)
unfolding first_wait
sum-first_wait running i zero = (omega arith, λ h. omega arith)
sum-first_wait running i (suc n) =
    let (le, all) = sum-first_wait running (suc i) n in
    elim (Bool-cases (running i)) [
      | inl e ↦ rw e (omega arith, λ h. let all = all h in omega arith)
      | inr e ↦ rw e (omega arith, λ h. cc (e, h i))
    ]

-- What one time around the loop reads: the flag at its head, the answers to the requests, the
-- nanoseconds that the push takes, and the flag at each round of the wait behind it.
pub record Lap : Type 0 where
  pub running : Bool
  pub get : ℤ → Option Response
  pub post : Post → Option Response
  pub elapsed : ℕ
  pub still : ℕ → Bool

-- What it does: the push, and what is slept behind it.
pub record Pushed : Type 0 where
  pub push : Push
  pub slept : List ℕ

module _ (stoi : Text → Option ℤ) (url : Text) (port : ℤ) (target : ℕ) where
  -- Nothing where `stoi` throws.
  unfoldable pub push_lap : Lap → Option Pushed
  unfolding push_once rest_of_lap
  push_lap lap = push_once stoi lap.get lap.post url port >>= λ (push : Push).
      rest_of_lap lap.still target lap.elapsed >>= λ (slept : List ℕ).
      some (record { push = push; slept = slept })

  -- The loop, until the flag is read as false.
  unfoldable pub push_laps : List Lap → Option (List Pushed)
  unfolding push_lap
  push_laps [] = some []
  push_laps (lap ∷ laps) =
      let rest = push_laps laps in
      if lap.running
      then (push_lap lap >>= λ (p : Pushed). rest >>= λ (ps : List Pushed). some (p ∷ ps))
      else some []

  unfoldable pub push_loop : (ℕ → Bool) → List Lap → Option (List ℕ × List Pushed)
  unfolding first_wait push_laps
  push_loop running laps =
      push_laps laps >>= λ (ps : List Pushed). some (first_wait running 0 8, ps)

  -- Each lap pushes once and, where the flag stays set, takes longer than the interval less one
  -- millisecond; the loop ends at the first lap that reads the flag as false.
  abbrev pub Follows : List Lap → List Pushed → Type 0
  Follows [] [] = Unit {0}
  Follows [] (p ∷ ps) = ⊥
  Follows (lap ∷ laps) [] = lap.running ≡ false
  Follows (lap ∷ laps) (p ∷ ps) =
      (lap.running ≡ true)
      × (push_once stoi lap.get lap.post url port ≡ some p.push)
      × (((j : ℕ) → lap.still j ≡ true) → target < lap.elapsed + sum p.slept * 1000000 + 1000000)
      × Follows laps ps

  push_laps-Follows :
      parse_url stoi url ≢ exception
      → (laps : List Lap) → (ps : List Pushed) × (push_laps laps ≡ some ps) × Follows laps ps
  unfolding push_laps push_lap
  push_laps-Follows readable [] = ([], refl, tt)
  push_laps-Follows readable (lap ∷ laps) = elim (Bool-cases lap.running) [
    | inl on ↦
        let rest = push_laps-Follows readable laps in
        let push = push_once-returns stoi lap.get lap.post url port readable in
        let wait = rest_of_lap-long lap.still target lap.elapsed in
        (
          record { push = push.0; slept = wait.0 } ∷ rest.0,
          rw (on, push.1, wait.1, rest.1) refl,
          (on, push.1, wait.2, rest.2),
        )
    | inr off ↦ ([], rw off refl, off)
  ]

  -- Where the reading of the address throws no exception, the loop does not either: it first waits for two
  -- seconds at most, and for exactly two if the flag stays set meanwhile; then every lap pushes once and,
  -- if the flag stays set, lasts longer than the interval less one millisecond, until the first lap that
  -- reads the flag as false.
  pub push_loop-Follows :
      parse_url stoi url ≢ exception
      → (running : ℕ → Bool) (laps : List Lap)
      → (slept : List ℕ) × (ps : List Pushed) × (push_loop running laps ≡ some (slept, ps))
        × (sum slept ≤ 2000)
        × (((j : ℕ) → running j ≡ true) → sum slept ≡ 2000)
        × Follows laps ps
  unfolding push_loop
  push_loop-Follows readable running laps =
      let ps = push_laps-Follows readable laps in
      let wait = sum-first_wait running 0 8 in
      (first_wait running 0 8, ps.0, rw ps.1 refl, wait.0, wait.1, ps.2)
