-- ===== src/Service/Lifecycle/Steps.antt =====
-- What the steps that end the service of apps/host_agent/src/core/service.cpp leave joined.
use capacity_agent.Base.{
  ℕ, zero, suc, ◌≡◌, refl, sym, ap, ◌∙◌, Bool, true, false, not, ◌||◌, ==_iff, Option, none, some,
  List, inl, inr, Bool-cases, arith,
}
use capacity_agent.Base.Options.{some_inj}
use capacity_agent.Service.Lifecycle.{
  Part, http_server, gpu_collector, ollama_collector, snapshot_pusher, pipe_thread, index, same,
  Worker, Service, update, on_worker, joinable_if, alive_if, Act, clear_running, await_clear, stop,
  store_false, test_joinable, join, leave, enter_join, joined, act,
}

abbrev part_at : ℕ → Part
part_at zero = http_server
part_at (suc zero) = gpu_collector
part_at (suc (suc zero)) = ollama_collector
part_at (suc (suc (suc zero))) = snapshot_pusher
part_at (suc (suc (suc (suc n)))) = pipe_thread

part_at-index : (p : Part) → part_at (index p) ≡ p
part_at-index http_server = refl
part_at-index gpu_collector = refl
part_at-index ollama_collector = refl
part_at-index snapshot_pusher = refl
part_at-index pipe_thread = refl

pub same_eq : (p q : Part) → same p q ≡ true → p ≡ q
same_eq p q h =
    sym (part_at-index p) ∙ ap part_at ((==_iff (index p) (index q)).0 h) ∙ part_at-index q

-- The thread of a part is joined or was never there, or nothing more is defined.
abbrev pub is_done : Part → Service → Bool
is_done p s = s.undefined || not (joinable_if (s.workers p))

on_worker-joinable :
    (f : Worker → Worker) (o : Option Worker)
    → ((w : Worker) → w.joinable ≡ false → (f w).joinable ≡ false)
    → joinable_if o ≡ false
    → joinable_if (on_worker f o) ≡ false
on_worker-joinable f none keeps h = refl
on_worker-joinable f (some w) keeps h = keeps w h

-- A change of a part that makes no thread joinable.
pub update-is_done :
    (p q : Part) (f : Worker → Worker) (s : Service)
    → ((w : Worker) → w.joinable ≡ false → (f w).joinable ≡ false)
    → is_done p s ≡ true
    → is_done p (update q f s) ≡ true
update-is_done p q f s keeps h = elim (Bool-cases (same q p)) [
  | inl e ↦ elim (Bool-cases s.undefined) [
    | inl u ↦ rw u refl
    | inr u ↦
        let gone : joinable_if (s.workers p) ≡ false = ground arith in
        rw (u, e, on_worker-joinable f (s.workers p) keeps gone) refl
  ]
  | inr e ↦ rw e h
]

enter_join-is_done :
    (p q : Part) (b : Bool) (s : Service)
    → is_done p s ≡ true
    → is_done p (enter_join q b s).1 ≡ true
enter_join-is_done p q true s h =
    update-is_done p q (λ w. record w { joining = true }) s (λ w k. k) h
enter_join-is_done p q false s h = refl

-- No step makes a thread joinable.
pub act-is_done :
    (p : Part) (a : Act) (s : Service) (r : List Act × Service)
    → act a s ≡ some r
    → is_done p s ≡ true
    → is_done p r.1 ≡ true
unfolding act
act-is_done p clear_running s r e h = rw (sym (some_inj e)) h
act-is_done p await_clear s r e h = elim (Bool-cases s.running) [
  | inl b ↦ cc (rw b at e)
  | inr b ↦ rw (sym (some_inj (rw b at e))) h
]
act-is_done p (stop q) s r e h = rw (sym (some_inj e)) h
act-is_done p (store_false q) s r e h =
    rw (sym (some_inj e)) (update-is_done p q (λ w. record w { running = false }) s (λ w k. k) h)
act-is_done p (test_joinable q) s r e h = rw (sym (some_inj e)) h
act-is_done p (join q) s r e h = rw (sym (some_inj e)) (enter_join-is_done p q _ s h)
act-is_done p (leave q) s r e h = elim (Bool-cases (alive_if (s.workers q))) [
  | inl b ↦ cc (rw b at e)
  | inr b ↦ rw (sym (some_inj (rw b at e))) (update-is_done p q joined s (λ w k. refl) h)
]
