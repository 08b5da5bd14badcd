-- ===== src/Service/Lifecycle/Listens.antt =====
-- When the destruction of the service of apps/host_agent/src/core/service.cpp, after `Run`, terminates the
-- program: `HttpServer::Stop` does nothing where `running_` is false.
use capacity_agent.Base.{
  ℕ, zero, suc, ◌≡◌, refl, Bool, true, false, not, ◌||◌, Option, none, some, List, [], ◌∷◌,
  get_elem?, set, arith,
}
use mathlib.Core.Path.{subst}
use capacity_agent.Base.Options.{some_inj}
use capacity_agent.CommandLine.{ServiceConfig}
use capacity_agent.Service.Lifecycle.{
  Part, http_server, gpu_collector, ollama_collector, snapshot_pusher, pipe_thread, Service,
  Answers, update, running_if, joinable_if, Act, System, Turn, of_main, of_handler, ctrl_c, ends,
  listen_fails, advance, handle, turn, turns, waiting, destroy_terminates,
}
use capacity_agent.Service.Lifecycle.Steps.{is_done, update-is_done}
use capacity_agent.Service.Lifecycle.Joined.{is_http, advance-is_done, joined_by}
use capacity_agent.Service.Lifecycle.Flag.{
  is_safe, IsOpen, Guarded, update-running, kept-IsOpen, kept-Guarded, is_safe-kept,
  advance-Guarded,
}

abbrev AllGuarded : Bool → Service → List (List Act) → Type 0
AllGuarded failed s [] = Unit {0}
AllGuarded failed s (acts ∷ handlers) = Guarded failed s acts × AllGuarded failed s handlers

kept-AllGuarded :
    (failed failed' : Bool) (s t : Service) (handlers : List (List Act))
    → (is_safe failed s ≡ true → is_safe failed' t ≡ true)
    → AllGuarded failed s handlers
    → AllGuarded failed' t handlers
kept-AllGuarded failed failed' s t [] keeps h = tt
kept-AllGuarded failed failed' s t (acts ∷ handlers) keeps h = (
  kept-Guarded failed failed' s t acts keeps h.0,
  kept-AllGuarded failed failed' s t handlers keeps h.1,
)

get-Guarded :
    (failed : Bool) (s : Service) (handlers : List (List Act)) (k : ℕ) (acts : List Act)
    → AllGuarded failed s handlers
    → get_elem? handlers k ≡ some acts
    → Guarded failed s acts
get-Guarded failed s [] k acts h e = cc
get-Guarded failed s (first ∷ handlers) zero acts h e = subst (Guarded failed s) (some_inj e) h.0
get-Guarded failed s (first ∷ handlers) (suc k) acts h e =
    get-Guarded failed s handlers k acts h.1 e

set-AllGuarded :
    (failed : Bool) (s : Service) (handlers : List (List Act)) (k : ℕ) (acts : List Act)
    → AllGuarded failed s handlers
    → Guarded failed s acts
    → AllGuarded failed s (set handlers k acts)
set-AllGuarded failed s [] k acts h g = tt
set-AllGuarded failed s (first ∷ handlers) zero acts h g = (g, h.1)
set-AllGuarded failed s (first ∷ handlers) (suc k) acts h g =
    (h.0, set-AllGuarded failed s handlers k acts h.1 g)

record IsOn (failed : Bool) (y : System) : Type 0 where
  open_flag : IsOpen failed y.service
  main_guarded : Guarded failed y.service y.main
  all_guarded : AllGuarded failed y.service y.handlers

handle-IsOn :
    (failed : Bool) (k : ℕ) (o : Option (List Act)) (y : System)
    → get_elem? y.handlers k ≡ o
    → IsOn failed y
    → IsOn failed (handle k o y)
unfolding handle
handle-IsOn failed k none y e w = w
handle-IsOn failed k (some acts) y e w =
    let keeps =
      is_safe-kept failed y.service (advance acts y.service).1
        (advance-is_done http_server acts y.service) in
    let guard = get-Guarded failed y.service y.handlers k acts w.all_guarded e in
    let (opened, guarded) = advance-Guarded failed acts y.service w.open_flag guard in
    record {
      open_flag = opened;
      main_guarded =
          kept-Guarded failed failed y.service (advance acts y.service).1 y.main keeps
            w.main_guarded;
      all_guarded =
          set-AllGuarded failed (advance acts y.service).1 y.handlers k _
            (kept-AllGuarded failed failed y.service (advance acts y.service).1 y.handlers keeps
              w.all_guarded)
            guarded;
    }

-- A change of the service that keeps what is joined, and the flag of the server.
changed-IsOn :
    (failed : Bool) (y : System) (t : Service)
    → (is_done http_server y.service ≡ true → is_done http_server t ≡ true)
    → running_if (t.workers http_server) ≡ running_if (y.service.workers http_server)
    → IsOn failed y
    → IsOn failed (record y { service = t })
changed-IsOn failed y t keeps same_flag w =
    let safe = is_safe-kept failed y.service t keeps in
    record {
      open_flag = kept-IsOpen failed y.service t keeps same_flag w.open_flag;
      main_guarded = kept-Guarded failed failed y.service t y.main safe w.main_guarded;
      all_guarded = kept-AllGuarded failed failed y.service t y.handlers safe w.all_guarded;
    }

abbrev pub is_failure : Turn → Bool
is_failure listen_fails = true
is_failure _ = false

or_true : (b : Bool) → (b || true) ≡ true
or_true b = ground arith

or_false : (b : Bool) → (b || false) ≡ b
or_false b = ground arith

failure-IsOn : (failed : Bool) (y : System) → IsOn failed y → IsOn true (turn listen_fails y)
unfolding turn
failure-IsOn failed y w =
    let t = update http_server (λ w. record w { running = false; alive = false }) y.service in
    record {
      open_flag = ground arith;
      main_guarded =
          kept-Guarded failed true y.service t y.main (λ h. or_true (is_done http_server t))
            w.main_guarded;
      all_guarded =
          kept-AllGuarded failed true y.service t y.handlers (λ h. or_true (is_done http_server t))
            w.all_guarded;
    }

turn-IsOn :
    (failed : Bool) (t : Turn) (y : System)
    → IsOn failed y
    → IsOn (failed || is_failure t) (turn t y)
unfolding turn
turn-IsOn failed of_main y w =
    let keeps =
      is_safe-kept failed y.service (advance y.main y.service).1
        (advance-is_done http_server y.main y.service) in
    let (opened, guarded) = advance-Guarded failed y.main y.service w.open_flag w.main_guarded in
    rw (or_false failed) (record {
      open_flag = opened;
      main_guarded = guarded;
      all_guarded =
          kept-AllGuarded failed failed y.service (advance y.main y.service).1 y.handlers keeps
            w.all_guarded;
    })
turn-IsOn failed (of_handler k) y w =
    rw (or_false failed) (handle-IsOn failed k (get_elem? y.handlers k) y refl w)
turn-IsOn failed ctrl_c y w = rw (or_false failed) (record {
  open_flag = w.open_flag;
  main_guarded = w.main_guarded;
  all_guarded = (refl, w.all_guarded);
})
turn-IsOn failed (ends q) y w = rw (or_false failed) (
    changed-IsOn failed y (update q (λ w. record w { alive = false }) y.service)
      (update-is_done http_server q (λ w. record w { alive = false }) y.service (λ w e. e))
      (update-running q (λ w. record w { alive = false }) y.service (λ w. refl)) w)
turn-IsOn failed listen_fails y w = rw (or_true failed) (failure-IsOn failed y w)

abbrev pub fails_in : List Turn → Bool
fails_in [] = false
fails_in (t ∷ ts) = is_failure t || fails_in ts

or_assoc : (a b c : Bool) → ((a || b) || c) ≡ (a || (b || c))
or_assoc a b c = ground arith

turns-IsOn :
    (failed : Bool) (ts : List Turn) (y : System)
    → IsOn failed y
    → IsOn (failed || fails_in ts) (turns ts y)
unfolding turns
turns-IsOn failed [] y w = rw (or_false failed) w
turns-IsOn failed (t ∷ ts) y w =
    subst (λ b. IsOn b (turns ts (turn t y))) (or_assoc failed (is_failure t) (fails_in ts))
      (turns-IsOn (failed || is_failure t) ts (turn t y) (turn-IsOn failed t y w))

waiting-IsOn : (config : ServiceConfig) (answers : Answers) → IsOn false (waiting config answers)
waiting-IsOn config answers = record { open_flag = refl; main_guarded = refl; all_guarded = tt }

still_open :
    (s : Service) (failed : Bool)
    → IsOpen failed s
    → s.undefined ≡ false
    → joinable_if (s.workers pipe_thread) ≡ false
    → (not (destroy_terminates s) || failed) ≡ true
unfolding destroy_terminates
still_open s failed h defined pipe = ground arith

-- The agent waits, with whatever settings and parts. From then on, however the turns come of the main thread,
-- of the handlers of any number of Ctrl-Cs, and of the ends of the parts' threads: once `Run` has
-- returned, and unless two calls of `join` on one thread have met, the threads of the collectors, of the
-- pusher and of the pipe are joined or were never started; and the destructor of the service then
-- terminates the program only if the HTTP server has failed to listen.
pub turns-Joined :
    (config : ServiceConfig) (answers : Answers) (ts : List Turn)
    → (turns ts (waiting config answers)).main ≡ []
    → (turns ts (waiting config answers)).service.undefined ≡ false
    → ((joinable_if ((turns ts (waiting config answers)).service.workers gpu_collector) ≡ false)
        × (joinable_if ((turns ts (waiting config answers)).service.workers ollama_collector)
            ≡ false)
        × (joinable_if ((turns ts (waiting config answers)).service.workers snapshot_pusher)
            ≡ false)
        × (joinable_if ((turns ts (waiting config answers)).service.workers pipe_thread) ≡ false))
      × ((not (destroy_terminates (turns ts (waiting config answers)).service) || fails_in ts)
          ≡ true)
turns-Joined config answers ts done defined =
    let gone = λ (p : Part) (h : is_http p ≡ false). joined_by p config answers ts h done defined in
    let on = turns-IsOn false ts (waiting config answers) (waiting-IsOn config answers) in
    (
      (
        gone gpu_collector refl,
        gone ollama_collector refl,
        gone snapshot_pusher refl,
        gone pipe_thread refl,
      ),
      still_open _ (fails_in ts) on.open_flag defined (gone pipe_thread refl),
    )
