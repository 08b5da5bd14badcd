-- ===== src/Service/Lifecycle/Flag.antt =====
-- When the steps that end the service of apps/host_agent/src/core/service.cpp clear the flag of the HTTP
-- server.
use capacity_agent.Base.{
  ◌≡◌, refl, sym, Bool, true, false, not, ◌||◌, Option, none, some, List, [], ◌∷◌, ◌++◌, inl, inr,
  Bool-cases, if◌then◌else◌, arith,
}
use mathlib.Core.Path.{subst}
use capacity_agent.Base.Options.{some_inj}
use capacity_agent.Service.Lifecycle.{
  Part, http_server, gpu_collector, ollama_collector, snapshot_pusher, pipe_thread, same, Worker,
  Service, update, on_worker, running_if, joinable_if, alive_if, Act, clear_running, await_clear,
  stop, store_false, test_joinable, join, leave, stop_acts, after_join, enter_join, joined, act,
  advance, proceed,
}
use capacity_agent.Service.Lifecycle.Steps.{is_done, act-is_done}
use capacity_agent.Service.Lifecycle.Joined.{same_refl, not_joinable}

-- A step clears the flag of the HTTP server.
abbrev clears : Act → Bool
clears (store_false q) = same q http_server
clears _ = false

abbrev any_clears : List Act → Bool
any_clears [] = false
any_clears (a ∷ acts) = clears a || any_clears acts

-- `failed` tells whether `listen` has returned false.
abbrev pub is_safe : Bool → Service → Bool
is_safe failed s = is_done http_server s || failed

-- The flag of the server is set, or its thread is joined, or `listen` has failed.
abbrev pub IsOpen : Bool → Service → Type 0
IsOpen failed s = (is_safe failed s || running_if (s.workers http_server)) ≡ true

-- The flag is cleared behind the join only.
abbrev pub Guarded : Bool → Service → List Act → Type 0
Guarded failed s acts = (not (any_clears acts) || is_safe failed s) ≡ true

running-kept :
    (f : Worker → Worker) (o : Option Worker)
    → ((w : Worker) → (f w).running ≡ w.running)
    → running_if (on_worker f o) ≡ running_if o
running-kept f none keeps = refl
running-kept f (some w) keeps = keeps w

pub update-running :
    (q : Part) (f : Worker → Worker) (s : Service)
    → ((w : Worker) → (f w).running ≡ w.running)
    → running_if ((update q f s).workers http_server) ≡ running_if (s.workers http_server)
update-running q f s keeps = elim (Bool-cases (same q http_server)) [
  | inl e ↦ rw e (running-kept f (s.workers http_server) keeps)
  | inr e ↦ rw e refl
]

-- A step that keeps the flag of the server.
pub kept-IsOpen :
    (failed : Bool) (s t : Service)
    → (is_done http_server s ≡ true → is_done http_server t ≡ true)
    → running_if (t.workers http_server) ≡ running_if (s.workers http_server)
    → IsOpen failed s
    → IsOpen failed t
kept-IsOpen failed s t keeps same_flag h = elim (Bool-cases (is_done http_server s)) [
  | inl d ↦ let kept = keeps d in ground arith
  | inr d ↦ ground arith
]

-- A step after which the thread is joined, or `listen` had failed.
safe-IsOpen :
    (failed : Bool) (s t : Service)
    → (is_done http_server s ≡ true → is_done http_server t ≡ true)
    → is_safe failed s ≡ true
    → IsOpen failed t
safe-IsOpen failed s t keeps h = elim (Bool-cases (is_done http_server s)) [
  | inl d ↦ let kept = keeps d in ground arith
  | inr d ↦ ground arith
]

store-running :
    (q : Part) (s : Service)
    → same q http_server ≡ false
    → running_if ((update q (λ w. record w { running = false }) s).workers http_server)
      ≡ running_if (s.workers http_server)
store-running q s h = rw h refl

enter_join-running :
    (q : Part) (b : Bool) (s : Service)
    → running_if ((enter_join q b s).1.workers http_server) ≡ running_if (s.workers http_server)
enter_join-running q true s = update-running q (λ w. record w { joining = true }) s (λ w. refl)
enter_join-running q false s = refl

flag_kept :
    (a : Act) (s : Service) (r : List Act × Service)
    → act a s ≡ some r
    → clears a ≡ false
    → running_if (r.1.workers http_server) ≡ running_if (s.workers http_server)
unfolding act
flag_kept clear_running s r e c = rw (sym (some_inj e)) refl
flag_kept await_clear s r e c = elim (Bool-cases s.running) [
  | inl b ↦ cc (rw b at e)
  | inr b ↦ rw (sym (some_inj (rw b at e))) refl
]
flag_kept (stop q) s r e c = rw (sym (some_inj e)) refl
flag_kept (store_false q) s r e c = rw (sym (some_inj e)) (store-running q s c)
flag_kept (test_joinable q) s r e c = rw (sym (some_inj e)) refl
flag_kept (join q) s r e c = rw (sym (some_inj e)) (enter_join-running q _ s)
flag_kept (leave q) s r e c = elim (Bool-cases (alive_if (s.workers q))) [
  | inl b ↦ cc (rw b at e)
  | inr b ↦ rw (sym (some_inj (rw b at e))) (update-running q joined s (λ w. refl))
]

act-IsOpen :
    (failed : Bool) (a : Act) (s : Service) (r : List Act × Service)
    → act a s ≡ some r
    → (not (clears a) || is_safe failed s) ≡ true
    → IsOpen failed s
    → IsOpen failed r.1
act-IsOpen failed a s r e guard h =
    let keeps : is_done http_server s ≡ true → is_done http_server r.1 ≡ true =
      act-is_done http_server a s r e in
    elim (Bool-cases (clears a)) [
      | inl c ↦ safe-IsOpen failed s r.1 keeps (ground arith)
      | inr c ↦ kept-IsOpen failed s r.1 keeps (flag_kept a s r e c) h
    ]

stop-clears : (q : Part) (o : Option Worker) → any_clears (stop_acts q o) ≡ false
stop-clears q none = refl
stop-clears http_server (some w) = elim (Bool-cases w.running) [
  | inl e ↦ rw e refl
  | inr e ↦ rw e refl
]
stop-clears gpu_collector (some w) = refl
stop-clears ollama_collector (some w) = refl
stop-clears snapshot_pusher (some w) = refl
stop-clears pipe_thread (some w) = refl

-- Behind the join of a part's thread, the flag is cleared only if that thread was the server's.
after-Guarded :
    (failed : Bool) (q : Part) (s : Service)
    → joinable_if (s.workers q) ≡ false
    → Guarded failed s (after_join q)
after-Guarded failed http_server s h = ground arith
after-Guarded failed gpu_collector s h = refl
after-Guarded failed ollama_collector s h = refl
after-Guarded failed snapshot_pusher s h = refl
after-Guarded failed pipe_thread s h = refl

test-Guarded :
    (failed : Bool) (q : Part) (s : Service)
    → Guarded failed s (if joinable_if (s.workers q) then join q ∷ [] else after_join q)
test-Guarded failed q s = elim (Bool-cases (joinable_if (s.workers q))) [
  | inl e ↦ rw e refl
  | inr e ↦ rw e (after-Guarded failed q s e)
]

enter_join-Guarded :
    (failed : Bool) (q : Part) (b : Bool) (s : Service)
    → Guarded failed (enter_join q b s).1 (enter_join q b s).0
enter_join-Guarded failed q true s = refl
enter_join-Guarded failed q false s = refl

joined_after : (q : Part) (s : Service) → joinable_if ((update q joined s).workers q) ≡ false
joined_after q s = rw (same_refl q) (not_joinable (s.workers q))

-- What a step leaves to be done is guarded.
act-Guarded :
    (failed : Bool) (a : Act) (s : Service) (r : List Act × Service)
    → act a s ≡ some r
    → Guarded failed r.1 r.0
unfolding act
act-Guarded failed clear_running s r e = rw (sym (some_inj e)) refl
act-Guarded failed await_clear s r e = elim (Bool-cases s.running) [
  | inl b ↦ cc (rw b at e)
  | inr b ↦ rw (sym (some_inj (rw b at e))) refl
]
act-Guarded failed (stop q) s r e =
    rw (sym (some_inj e)) (let none_clears = stop-clears q (s.workers q) in ground arith)
act-Guarded failed (store_false q) s r e = rw (sym (some_inj e)) refl
act-Guarded failed (test_joinable q) s r e =
    subst (λ x. Guarded failed x.1 x.0) (some_inj e) (test-Guarded failed q s)
act-Guarded failed (join q) s r e =
    subst (λ x. Guarded failed x.1 x.0) (some_inj e) (enter_join-Guarded failed q _ s)
act-Guarded failed (leave q) s r e = elim (Bool-cases (alive_if (s.workers q))) [
  | inl b ↦ cc (rw b at e)
  | inr b ↦
      subst (λ x. Guarded failed x.1 x.0) (some_inj (rw b at e))
        (after-Guarded failed q (update q joined s) (joined_after q s))
]

-- What stays guarded: after a step of any thread, and after a failure.
pub kept-Guarded :
    (failed failed' : Bool) (s t : Service) (acts : List Act)
    → (is_safe failed s ≡ true → is_safe failed' t ≡ true)
    → Guarded failed s acts
    → Guarded failed' t acts
kept-Guarded failed failed' s t acts keeps h = elim (Bool-cases (is_safe failed s)) [
  | inl d ↦ let kept = keeps d in ground arith
  | inr d ↦ ground arith
]

any_clears-append : (as' bs : List Act) → any_clears (as' ++ bs) ≡ (any_clears as' || any_clears bs)
any_clears-append [] bs = refl
any_clears-append (a ∷ as') bs = ground (arith, any_clears-append as' bs)

pub is_safe-kept :
    (failed : Bool) (s t : Service)
    → (is_done http_server s ≡ true → is_done http_server t ≡ true)
    → is_safe failed s ≡ true
    → is_safe failed t ≡ true
is_safe-kept failed s t keeps h = elim (Bool-cases (is_done http_server s)) [
  | inl d ↦ let kept = keeps d in ground arith
  | inr d ↦ ground arith
]

-- A step of a thread whose steps are guarded.
proceed-Guarded :
    (failed : Bool) (a : Act) (acts : List Act) (s : Service) (o : Option (List Act × Service))
    → act a s ≡ o
    → IsOpen failed s
    → Guarded failed s (a ∷ acts)
    → IsOpen failed (proceed a acts s o).1
      × Guarded failed (proceed a acts s o).1 (proceed a acts s o).0
proceed-Guarded failed a acts s none e h g = (h, g)
proceed-Guarded failed a acts s (some r) e h g =
    let first : (not (clears a) || is_safe failed s) ≡ true = ground arith in
    let rest : Guarded failed s acts = ground arith in
    let keeps = is_safe-kept failed s r.1 (act-is_done http_server a s r e) in
    let rest_kept = kept-Guarded failed failed s r.1 acts keeps rest in
    let new = act-Guarded failed a s r e in
    (act-IsOpen failed a s r e first h, rw (any_clears-append r.0 acts) (ground arith))

pub advance-Guarded :
    (failed : Bool) (acts : List Act) (s : Service)
    → IsOpen failed s
    → Guarded failed s acts
    → IsOpen failed (advance acts s).1 × Guarded failed (advance acts s).1 (advance acts s).0
unfolding advance
advance-Guarded failed [] s h g = (h, g)
advance-Guarded failed (a ∷ acts) s h g = proceed-Guarded failed a acts s (act a s) refl h g
