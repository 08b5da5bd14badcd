-- ===== src/Examples/Readers.antt =====
-- Two readers, one of which is initialised and then moved to the other.
use capacity_agent.Base.{◌+◌, ◌≡◌, refl, ◌↔◌, true, Option, none, some, List, [], ◌∷◌, length}
use capacity_agent.Gpu.Reader.Lifetimes.{
  Readers, Op, swap, do_init, assign, two_new, step, run, is_init, living, AllReleased, made_by,
}
use capacity_agent.Gpu.Reader.Lifetimes.Released.{run-AllReleased}
use capacity_agent.Examples.Answers.{naturals}
use capacity_agent.Examples.Gpus.{no_number, one_gpu}

abbrev initialize : Op
initialize = do_init 0 none (some (some one_gpu))

-- The second reader takes over the probe of the first; its own probe is deleted.
abbrev ops : List Op
ops = initialize ∷ swap ∷ assign ∷ swap ∷ []

abbrev readers_or : Readers → Option Readers → Readers
readers_or s none = s
readers_or s (some t) = t

abbrev reached : Readers
reached = readers_or two_new (run no_number naturals ops two_new)

runs : run no_number naturals ops two_new ≡ some reached
unfolding run
runs = refl

run-AllReleased_example :
    AllReleased reached.deleted
    × (length reached.deleted + (living reached.first.impl + living reached.second.impl)
        ≡ made_by ops + 2)
    × ((step no_number naturals initialize reached ≡ none)
        ↔ ((is_init initialize ≡ true) × (reached.first.impl ≡ none)))
run-AllReleased_example = run-AllReleased no_number naturals ops initialize reached runs

-- The reader that the probe was moved from cannot be initialised again.
none_left : step no_number naturals initialize reached ≡ none
unfolding run
none_left = (run-AllReleased no_number naturals ops initialize reached runs).2.1 (refl, refl)
