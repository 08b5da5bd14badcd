-- ===== src/Examples/Ending.antt =====
-- The end of the agent.
use capacity_agent.Base.{ℕ, zero, suc, ◌≡◌, refl, true, false, not, ◌||◌, List, [], ◌∷◌, ◌++◌}
use capacity_agent.CommandLine.{default_config}
use capacity_agent.Service.Lifecycle.{
  http_server, gpu_collector, ollama_collector, snapshot_pusher, pipe_thread, Answers, Turn,
  of_main, of_handler, ctrl_c, ends, listen_fails, turns, waiting, destroy_terminates, joinable_if,
}
use capacity_agent.Service.Lifecycle.Listens.{fails_in, turns-Joined}

-- The runtime of Ollama is not found.
abbrev no_ollama : Answers
no_ollama = record { gpu_initialize = true; ollama_initialize = false }

abbrev repeat : ℕ → Turn → List Turn
repeat zero t = []
repeat (suc n) t = t ∷ repeat n t

-- The port is taken; Ctrl-C comes, the threads end, the handler runs, and then `Run`.
abbrev port_taken : List Turn
port_taken =
    listen_fails ∷ ctrl_c ∷ ends gpu_collector ∷ ends pipe_thread ∷ repeat 14 (of_handler 0)
    ++ repeat 12 of_main

returned : (turns port_taken (waiting default_config no_ollama)).main ≡ []
unfolding turns
returned = refl

defined : (turns port_taken (waiting default_config no_ollama)).service.undefined ≡ false
unfolding turns
defined = refl

turns-Joined_example :
    ((joinable_if
          ((turns port_taken (waiting default_config no_ollama)).service.workers gpu_collector)
        ≡ false)
      × (joinable_if
            ((turns port_taken (waiting default_config no_ollama)).service.workers ollama_collector)
          ≡ false)
      × (joinable_if
            ((turns port_taken (waiting default_config no_ollama)).service.workers snapshot_pusher)
          ≡ false)
      × (joinable_if
            ((turns port_taken (waiting default_config no_ollama)).service.workers pipe_thread)
          ≡ false))
    × ((not (destroy_terminates (turns port_taken (waiting default_config no_ollama)).service)
          || fails_in port_taken)
        ≡ true)
turns-Joined_example = turns-Joined default_config no_ollama port_taken returned defined

-- The HTTP server's thread was not joined.
terminates : destroy_terminates (turns port_taken (waiting default_config no_ollama)).service ≡ true
unfolding turns destroy_terminates
terminates = refl

-- The server listens, and nothing is left.
abbrev in_order : List Turn
in_order =
    ctrl_c ∷ ends gpu_collector ∷ ends pipe_thread ∷ ends http_server ∷ repeat 14 (of_handler 0)
    ++ repeat 12 of_main

in_order_returned : (turns in_order (waiting default_config no_ollama)).main ≡ []
unfolding turns
in_order_returned = refl

returns : destroy_terminates (turns in_order (waiting default_config no_ollama)).service ≡ false
unfolding turns destroy_terminates
returns = refl

-- The handler has found the collector's thread joinable, `Run` joins it, and then the handler does.
abbrev both_join : List Turn
both_join =
    ctrl_c ∷ ends pipe_thread ∷ repeat 6 (of_handler 0) ++ repeat 10 of_main ++ of_handler 0 ∷ []

two_joins : (turns both_join (waiting default_config no_ollama)).service.undefined ≡ true
unfolding turns
two_joins = refl
