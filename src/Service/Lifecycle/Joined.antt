-- ===== src/Service/Lifecycle/Joined.antt =====
-- Which threads `Service::Run` of apps/host_agent/src/core/service.cpp has joined when it returns.
use capacity_agent.Base.{
  ℕ, ◌≡◌, refl, sym, Bool, true, false, not, ◌&&◌, ◌||◌, Option, none, some, List, [], ◌∷◌, ◌++◌,
  get_elem?, inl, inr, Bool-cases, if◌then◌else◌, arith,
}
use mathlib.Core.Path.{subst}
use capacity_agent.Base.Options.{some_inj}
use capacity_agent.CommandLine.{ServiceConfig}
use capacity_agent.Service.Lifecycle.{
  Part, http_server, gpu_collector, ollama_collector, snapshot_pusher, pipe_thread, same, Worker,
  Service, Answers, update, on_worker, joinable_if, alive_if, joining_if, Act, clear_running,
  await_clear, stop, store_false, test_joinable, join, leave, stop_acts, after_join, enter_join,
  joined, act, System, Turn, of_main, of_handler, ctrl_c, ends, listen_fails, advance, proceed,
  handle, turn, turns, waiting,
}
use capacity_agent.Service.Lifecycle.Steps.{same_eq, is_done, update-is_done, act-is_done}

-- A step that is on the way to the join of a part's thread.
abbrev joins : Part → Act → Bool
joins p (stop q) = same q p
joins p (test_joinable q) = same q p
joins p (join q) = same q p
joins p (leave q) = same q p
joins p _ = false

abbrev any_joins : Part → List Act → Bool
any_joins p [] = false
any_joins p (a ∷ acts) = joins p a || any_joins p acts

abbrev pub is_http : Part → Bool
is_http http_server = true
is_http _ = false

stop-joins :
    (p : Part) (o : Option Worker)
    → is_http p ≡ false
    → (not (joinable_if o) || any_joins p (stop_acts p o)) ≡ true
stop-joins p none h = refl
stop-joins http_server (some w) h = cc
stop-joins gpu_collector (some w) h = ground arith
stop-joins ollama_collector (some w) h = ground arith
stop-joins snapshot_pusher (some w) h = ground arith
stop-joins pipe_thread (some w) h = ground arith

pub same_refl : (p : Part) → same p p ≡ true
same_refl http_server = refl
same_refl gpu_collector = refl
same_refl ollama_collector = refl
same_refl snapshot_pusher = refl
same_refl pipe_thread = refl

pub not_joinable : (o : Option Worker) → joinable_if (on_worker joined o) ≡ false
not_joinable none = refl
not_joinable (some w) = refl

-- Either a part's thread is joined or the steps are on the way to its join.
abbrev Ensures : Part → List Act × Service → Type 0
Ensures p r = (is_done p r.1 || any_joins p r.0) ≡ true

stop-Ensures :
    (p : Part) (s : Service) → is_http p ≡ false → Ensures p (stop_acts p (s.workers p), s)
stop-Ensures p s h = let on_way = stop-joins p (s.workers p) h in ground arith

test-Ensures :
    (p : Part) (s : Service)
    → Ensures p (if joinable_if (s.workers p) then join p ∷ [] else after_join p, s)
test-Ensures p s = elim (Bool-cases (joinable_if (s.workers p))) [
  | inl e ↦ let self = same_refl p in rw e (ground arith)
  | inr e ↦ rw e (ground arith)
]

enter_join-Ensures : (p : Part) (b : Bool) (s : Service) → Ensures p (enter_join p b s)
enter_join-Ensures p true s = let self = same_refl p in ground arith
enter_join-Ensures p false s = refl

leave-Ensures : (p : Part) (s : Service) → Ensures p (after_join p, update p joined s)
leave-Ensures p s = let gone = not_joinable (s.workers p) in rw (same_refl p, gone) (ground arith)

-- A step on the way to the join of a part's thread, the HTTP server's excepted, leads there.
act-Ensures :
    (p : Part) (a : Act) (s : Service) (r : List Act × Service)
    → is_http p ≡ false
    → joins p a ≡ true
    → act a s ≡ some r
    → Ensures p r
unfolding act
act-Ensures p clear_running s r h j e = cc
act-Ensures p await_clear s r h j e = cc
act-Ensures p (store_false q) s r h j e = cc
act-Ensures p (stop q) s r h j e = subst (Ensures p) (some_inj e) (
    subst (λ x. Ensures p (stop_acts x (s.workers x), s)) (sym (same_eq q p j))
      (stop-Ensures p s h))
act-Ensures p (test_joinable q) s r h j e = subst (Ensures p) (some_inj e) (
    subst (λ x. Ensures p (if joinable_if (s.workers x) then join x ∷ [] else after_join x, s))
      (sym (same_eq q p j)) (test-Ensures p s))
act-Ensures p (join q) s r h j e = subst (Ensures p) (some_inj e) (
    subst
      (λ x.
        Ensures p (enter_join x (joinable_if (s.workers x) && not (joining_if (s.workers x))) s))
      (sym (same_eq q p j)) (enter_join-Ensures p _ s))
act-Ensures p (leave q) s r h j e = elim (Bool-cases (alive_if (s.workers q))) [
  | inl b ↦ cc (rw b at e)
  | inr b ↦ subst (Ensures p) (some_inj (rw b at e)) (
      subst (λ x. Ensures p (after_join x, update x joined s)) (sym (same_eq q p j))
        (leave-Ensures p s))
]

any_joins-append :
    (p : Part) (as' bs : List Act) → any_joins p (as' ++ bs) ≡ (any_joins p as' || any_joins p bs)
any_joins-append p [] bs = refl
any_joins-append p (a ∷ as') bs = ground (arith, any_joins-append p as' bs)

proceed-is_done :
    (p : Part) (a : Act) (acts : List Act) (s : Service) (o : Option (List Act × Service))
    → act a s ≡ o
    → is_done p s ≡ true
    → is_done p (proceed a acts s o).1 ≡ true
proceed-is_done p a acts s none e h = h
proceed-is_done p a acts s (some r) e h = act-is_done p a s r e h

-- A thread's step keeps what is joined.
pub advance-is_done :
    (p : Part) (acts : List Act) (s : Service)
    → is_done p s ≡ true
    → is_done p (advance acts s).1 ≡ true
unfolding advance
advance-is_done p [] s h = h
advance-is_done p (a ∷ acts) s h = proceed-is_done p a acts s (act a s) refl h

proceed-Ensures :
    (p : Part) (a : Act) (acts : List Act) (s : Service) (o : Option (List Act × Service))
    → is_http p ≡ false
    → act a s ≡ o
    → Ensures p (a ∷ acts, s)
    → Ensures p (proceed a acts s o)
proceed-Ensures p a acts s none h e k = k
proceed-Ensures p a acts s (some r) h e k =
    rw (any_joins-append p r.0 acts) (elim (Bool-cases (is_done p s)) [
      | inl d ↦ let kept = act-is_done p a s r e d in ground arith
      | inr d ↦ elim (Bool-cases (joins p a)) [
        | inl j ↦ let new = act-Ensures p a s r h j e in ground arith
        | inr j ↦ let later : any_joins p acts ≡ true = ground arith in ground arith
      ]
    ])

advance-Ensures :
    (p : Part) (acts : List Act) (s : Service)
    → is_http p ≡ false
    → Ensures p (acts, s)
    → Ensures p (advance acts s)
unfolding advance
advance-Ensures p [] s h k = k
advance-Ensures p (a ∷ acts) s h k = proceed-Ensures p a acts s (act a s) h refl k

-- A change that keeps what is joined keeps the main thread on its way.
kept-Ensures :
    (p : Part) (acts : List Act) (s t : Service)
    → (is_done p s ≡ true → is_done p t ≡ true)
    → Ensures p (acts, s)
    → Ensures p (acts, t)
kept-Ensures p acts s t keeps k = elim (Bool-cases (is_done p s)) [
  | inl d ↦ let kept = keeps d in ground arith
  | inr d ↦ ground arith
]

handle-Ensures :
    (p : Part) (k : ℕ) (o : Option (List Act)) (y : System)
    → Ensures p (y.main, y.service)
    → Ensures p ((handle k o y).main, (handle k o y).service)
unfolding handle
handle-Ensures p k none y h = h
handle-Ensures p k (some acts) y h =
    kept-Ensures p y.main y.service (advance acts y.service).1 (advance-is_done p acts y.service) h

turn-Ensures :
    (p : Part) (t : Turn) (y : System)
    → is_http p ≡ false
    → Ensures p (y.main, y.service)
    → Ensures p ((turn t y).main, (turn t y).service)
unfolding turn
turn-Ensures p of_main y h k = advance-Ensures p y.main y.service h k
turn-Ensures p (of_handler n) y h k = handle-Ensures p n (get_elem? y.handlers n) y k
turn-Ensures p ctrl_c y h k = k
turn-Ensures p (ends q) y h k =
    kept-Ensures p y.main y.service (update q (λ w. record w { alive = false }) y.service)
      (update-is_done p q (λ w. record w { alive = false }) y.service (λ w e. e)) k
turn-Ensures p listen_fails y h k =
    kept-Ensures p y.main y.service
      (update http_server (λ w. record w { running = false; alive = false }) y.service)
      (update-is_done p http_server (λ w. record w { running = false; alive = false }) y.service
        (λ w e. e))
      k

turns-Ensures :
    (p : Part) (ts : List Turn) (y : System)
    → is_http p ≡ false
    → Ensures p (y.main, y.service)
    → Ensures p ((turns ts y).main, (turns ts y).service)
unfolding turns
turns-Ensures p [] y h k = k
turns-Ensures p (t ∷ ts) y h k = turns-Ensures p ts (turn t y) h (turn-Ensures p t y h k)

waiting-Ensures :
    (p : Part) (config : ServiceConfig) (answers : Answers)
    → is_http p ≡ false
    → Ensures p ((waiting config answers).main, (waiting config answers).service)
waiting-Ensures http_server config answers h = cc
waiting-Ensures gpu_collector config answers h = ground arith
waiting-Ensures ollama_collector config answers h = ground arith
waiting-Ensures snapshot_pusher config answers h = ground arith
waiting-Ensures pipe_thread config answers h = ground arith

-- However the turns come, once `Run` has returned, and unless what happens is not defined, the thread of each
-- part but the HTTP server is joined.
pub joined_by :
    (p : Part) (config : ServiceConfig) (answers : Answers) (ts : List Turn)
    → is_http p ≡ false
    → (turns ts (waiting config answers)).main ≡ []
    → (turns ts (waiting config answers)).service.undefined ≡ false
    → joinable_if ((turns ts (waiting config answers)).service.workers p) ≡ false
joined_by p config answers ts h done defined =
    let k = turns-Ensures p ts (waiting config answers) h (waiting-Ensures p config answers h) in
    let none_left : any_joins p (turns ts (waiting config answers)).main ≡ false = rw done refl in
    ground arith
