-- ===== src/Gpu/Reader/Lifetimes/Released.antt =====
-- Two readers of libs/gpu_telemetry/src/gpu_sensor_reader.cpp over any sequence of operations.
use capacity_agent.Base.{
  ℕ, ◌+◌, ◌≡◌, refl, sym, ◌∙◌, ◌⊎◌, ◌↔◌, Bool, true, false, Option, none, some, List, [], ◌∷◌, inl,
  inr, Text, length, arith,
}
use capacity_agent.Base.Options.{>>=-eq-some, some_inj}
use capacity_agent.Base.Double.{Doubles}
use capacity_agent.Gpu.Driver.{NvApi, Nvml}
use capacity_agent.Gpu.Contexts.{Impl}
use capacity_agent.Gpu.Reader.Moves.{
  ReaderObject, object, new_reader, init_object, moved_from, delete_probe, move_assign,
  destroy_object,
}
use capacity_agent.Gpu.Reader.Lifetimes.{
  Readers, Op, swap, do_init, do_shutdown, do_sample_all, assign, assign_self, renew, renew_from,
  keep, two_new, step, run, is_init, made, made_by, living, AllReleased,
}
use capacity_agent.Gpu.Reader.Lifetimes.Held.{new_impl-IsHeld}
use capacity_agent.Gpu.Reader.Lifetimes.Objects.{
  HoldsImpl, IsSound, shutdown-Leaves, sample_all-Leaves, init-Leaves, deleted-AllReleased,
  length-keep,
}

-- What holds of the readers after `n` probes have been made.
record IsValid (n : ℕ) (s : Readers) : Type 0 where
  first_sound : IsSound s.first
  second_sound : IsSound s.second
  released : AllReleased s.deleted
  total : length s.deleted + (living s.first.impl + living s.second.impl) ≡ n

two_new-IsValid : IsValid 2 two_new
two_new-IsValid = record {
  first_sound = new_impl-IsHeld;
  second_sound = new_impl-IsHeld;
  released = tt;
  total = refl;
}

uninitialized : (i : Option Impl) (b : Bool) → HoldsImpl i b → i ≡ none → b ≡ false
uninitialized none b h e = h
uninitialized (some p) b h e = cc

none_is_no_some : {A P : Type 0} {a : A} → none ≡ some a → P
none_is_no_some e = cc

module _ (strtoul : Text → ℕ) (d : Doubles) where
  abbrev Goes : Op → ℕ → Readers → Type 0
  Goes op n s = (t : Readers) × (step strtoul d op s ≡ some t) × IsValid (made op + n) t

  -- An operation that leaves the first reader as sound.
  left-Goes :
      (o : ReaderObject) (n : ℕ) (s : Readers)
      → IsSound o
      → living o.impl ≡ living s.first.impl
      → IsValid n s
      → IsValid (0 + n) (record s { first = o })
  left-Goes o n s sound same w = record {
    first_sound = sound;
    second_sound = w.second_sound;
    released = w.released;
    total = let total = w.total in omega (arith, total, same);
  }

  -- An operation that deletes the probe of the first reader and makes `m` of them.
  deleted-Goes :
      (o first second : ReaderObject) (m n : ℕ) (s : Readers)
      → IsSound o
      → living o.impl ≡ living s.first.impl
      → IsSound first
      → IsSound second
      → living first.impl + living second.impl ≡ m + living s.second.impl
      → IsValid n s
      → IsValid (m + n) (record {
        first = first;
        second = second;
        deleted = keep (delete_probe o.impl) s.deleted;
      })
  deleted-Goes o first second m n s sound same first_sound second_sound moved w = record {
    first_sound = first_sound;
    second_sound = second_sound;
    released = deleted-AllReleased o.impl o.initialized s.deleted sound w.released;
    total =
        let total = w.total in
        let grown = length-keep o.impl s.deleted in omega (arith, total, grown, same, moved);
  }

  init-Goes :
      (moment : ℕ) (nvml_dll : Option Nvml) (nvapi_dll : Option (Option NvApi)) (n : ℕ)
      (s : Readers)
      → IsValid n s
      → Goes (do_init moment nvml_dll nvapi_dll) n s
        ⊎ ((s.first.impl ≡ none) × (step strtoul d (do_init moment nvml_dll nvapi_dll) s ≡ none))
  unfolding step
  init-Goes moment nvml_dll nvapi_dll n s w =
      elim (init-Leaves strtoul moment nvml_dll nvapi_dll s.first.impl s.first.initialized
        w.first_sound) [
          | inl l ↦ inl (_, rw l.1 refl, left-Goes l.0.2 n s l.2 l.3 w)
          | inr e ↦ inr (e.0, rw e.1 refl)
        ]

  -- Every other operation goes through.
  step-Goes : (op : Op) (n : ℕ) (s : Readers) → is_init op ≡ false → IsValid n s → Goes op n s
  unfolding step move_assign destroy_object
  step-Goes swap n s h w = (
    _,
    refl,
    record {
      first_sound = w.second_sound;
      second_sound = w.first_sound;
      released = w.released;
      total = let total = w.total in omega arith;
    },
  )
  step-Goes (do_init moment nvml_dll nvapi_dll) n s h w = cc
  step-Goes do_shutdown n s h w =
      let l = shutdown-Leaves s.first.impl s.first.initialized w.first_sound in
      (_, rw l.1 refl, left-Goes l.0 n s l.2 l.3 w)
  step-Goes (do_sample_all times mode) n s h w =
      let l = sample_all-Leaves d times mode s.first.impl s.first.initialized w.first_sound in
      (_, rw l.1 refl, left-Goes l.0.1 n s l.2 l.3 w)
  step-Goes assign n s h w =
      let l = shutdown-Leaves s.first.impl s.first.initialized w.first_sound in
      (
        _,
        rw l.1 refl,
        deleted-Goes l.0 s.second moved_from 0 n s l.2 l.3 w.second_sound refl (omega arith) w,
      )
  step-Goes assign_self n s h w = (_, refl, left-Goes s.first n s w.first_sound refl w)
  step-Goes renew n s h w =
      let l = shutdown-Leaves s.first.impl s.first.initialized w.first_sound in
      (
        _,
        rw l.1 refl,
        deleted-Goes l.0 (object new_reader) s.second 1 n s l.2 l.3 new_impl-IsHeld w.second_sound
            refl w,
      )
  step-Goes renew_from n s h w =
      let l = shutdown-Leaves s.first.impl s.first.initialized w.first_sound in
      (
        _,
        rw l.1 refl,
        deleted-Goes l.0 s.second moved_from 0 n s l.2 l.3 w.second_sound refl (omega arith) w,
      )

  -- An operation goes through, or initialises a reader without a probe.
  step-cases :
      (op : Op) (n : ℕ) (s : Readers)
      → IsValid n s
      → Goes op n s ⊎ ((is_init op ≡ true) × (s.first.impl ≡ none) × (step strtoul d op s ≡ none))
  step-cases (do_init moment nvml_dll nvapi_dll) n s w =
      elim (init-Goes moment nvml_dll nvapi_dll n s w) [
        | inl g ↦ inl g
        | inr e ↦ inr (refl, e.0, e.1)
      ]
  step-cases swap n s w = inl (step-Goes swap n s refl w)
  step-cases do_shutdown n s w = inl (step-Goes do_shutdown n s refl w)
  step-cases (do_sample_all times mode) n s w =
      inl (step-Goes (do_sample_all times mode) n s refl w)
  step-cases assign n s w = inl (step-Goes assign n s refl w)
  step-cases assign_self n s w = inl (step-Goes assign_self n s refl w)
  step-cases renew n s w = inl (step-Goes renew n s refl w)
  step-cases renew_from n s w = inl (step-Goes renew_from n s refl w)

  step-IsValid :
      (op : Op) (n : ℕ) (s t : Readers)
      → IsValid n s
      → step strtoul d op s ≡ some t
      → IsValid (made op + n) t
  step-IsValid op n s t w e = elim (step-cases op n s w) [
    | inl g ↦ rw (some_inj (sym e ∙ g.1)) g.2
    | inr r ↦ none_is_no_some (sym r.2 ∙ e)
  ]

  run-IsValid :
      (ops : List Op) (n : ℕ) (s t : Readers)
      → IsValid n s
      → run strtoul d ops s ≡ some t
      → IsValid (made_by ops + n) t
  unfolding run
  run-IsValid [] n s t w e = let same : 0 + n ≡ n = omega arith in rw (sym (some_inj e), same) w
  run-IsValid (op ∷ ops) n s t w e =
      let through = >>=-eq-some (step strtoul d op s) (run strtoul d ops) e in
      let after = step-IsValid op n s through.0 w through.1 in
      let same : (made op + made_by ops) + n ≡ made_by ops + (made op + n) = omega arith in
      rw same (run-IsValid ops (made op + n) through.0 t after through.2)

  stuck :
      (op : Op) (s : Readers)
      → is_init op ≡ true
      → s.first.impl ≡ none
      → s.first.initialized ≡ false
      → step strtoul d op s ≡ none
  unfolding step init_object
  stuck (do_init moment nvml_dll nvapi_dll) s h e b = rw (e, b) refl
  stuck _ s h e b = cc

  -- After any sequence of operations on two new readers that dereferences no null pointer, every probe
  -- that was deleted has given back as many libraries as it took and ended each driver as often as it
  -- began it, for NVML and for NVAPI, and every probe that was made is deleted or held by
  -- one of the readers; and of the operations that may come next, exactly the initialisation of a
  -- reader from which was moved dereferences a null pointer.
  pub run-AllReleased :
      (ops : List Op) (op : Op) (s : Readers)
      → run strtoul d ops two_new ≡ some s
      → AllReleased s.deleted
        × (length s.deleted + (living s.first.impl + living s.second.impl) ≡ made_by ops + 2)
        × ((step strtoul d op s ≡ none) ↔ ((is_init op ≡ true) × (s.first.impl ≡ none)))
  run-AllReleased ops op s e =
      let w = run-IsValid ops 2 two_new s two_new-IsValid e in
      (
        w.released,
        w.total,
        (
          λ h. elim (step-cases op (made_by ops + 2) s w) [
            | inl g ↦ none_is_no_some (sym h ∙ g.1)
            | inr r ↦ (r.0, r.1)
          ],
          λ h.
              stuck op s h.0 h.1 (uninitialized s.first.impl s.first.initialized w.first_sound h.1),
        ),
      )
