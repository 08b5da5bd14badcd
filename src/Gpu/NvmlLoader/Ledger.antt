-- ===== src/Gpu/NvmlLoader/Ledger.antt =====
-- What the loader of nvml.dll takes, it gives back.
use capacity_agent.Base.{
  ◌∙◌, ap, ℕ, ◌+◌, ◌≡◌, refl, true, false, Option, none, some, List, [], ◌∷◌, inl, inr, Text, arith,
  Bool-cases, Option-cases,
}
use capacity_agent.Base.Options.{is_some}
use capacity_agent.Base.Int.{ℤ, pos}
use capacity_agent.Store.Tables.{int_eq}
use capacity_agent.Gpu.Calls.{load_library, free_library, begin_driver, end_driver, count, to_ℕ}
use capacity_agent.Gpu.Driver.{Nvml, no_nvml}
use capacity_agent.Gpu.NvmlLoader.{
  NvmlLoader, new_loader, shutdown, init, start, finish_init, missing,
}

-- What holds between two operations: the library is held exactly while the driver is up, the
-- way to end it is known then, and every call that takes is answered by one that gives back but for
-- what is still held.
pub record IsSettled (l : NvmlLoader) : Type 0 where
  pub handle_eq : l.dll_handle ≡ l.initialized
  pub can_end : l.initialized ≡ true → is_some l.entries.fn_shutdown ≡ true
  pub closed : l.initialized ≡ false → l.entries ≡ no_nvml
  pub loads : count load_library l.calls ≡ count free_library l.calls + to_ℕ l.dll_handle
  pub begins : count begin_driver l.calls ≡ count end_driver l.calls + to_ℕ l.initialized

data Op : Type 0 where
  do_init : ℕ → Option Nvml → Op
  do_shutdown : Op

abbrev apply : Op → NvmlLoader → NvmlLoader
apply (do_init moment dll) l = (init moment dll l).1
apply do_shutdown l = shutdown l

abbrev run : List Op → NvmlLoader → NvmlLoader
run [] l = l
run (op ∷ ops) l = run ops (apply op l)

pub new_loader-IsSettled : IsSettled new_loader
new_loader-IsSettled = record {
  handle_eq = refl;
  can_end = λ h. cc;
  closed = λ h. refl;
  loads = refl;
  begins = refl;
}

pub shutdown-IsSettled : (l : NvmlLoader) → IsSettled l → IsSettled (shutdown l)
unfolding shutdown
shutdown-IsSettled l w =
    let handle = w.handle_eq in
    let end = w.can_end in
    let loads = w.loads in
    let begins = w.begins in
    record {
      handle_eq = refl;
      can_end = λ h. cc;
      closed = λ h. refl;
      loads = ground arith;
      begins = ground arith;
    }

-- The loader with the library just loaded.
abbrev loaded : NvmlLoader → Nvml → NvmlLoader
loaded l found = record l { dll_handle = true; entries = found; calls = load_library ∷ l.calls }

-- A failed start gives the library back, and does not end a driver that has not begun.
failed-IsSettled :
    (l : NvmlLoader) (found : Nvml)
    → l.initialized ≡ false
    → IsSettled l
    → IsSettled (shutdown (loaded l found))
unfolding shutdown
failed-IsSettled l found closed w =
    let handle = w.handle_eq in
    let loads = w.loads in
    let begins = w.begins in
    record {
      handle_eq = refl;
      can_end = λ h. cc;
      closed = λ h. refl;
      loads = ground arith;
      begins = ground arith;
    }

can_end_of : (e : Nvml) → missing e ≡ false → is_some e.fn_shutdown ≡ true
can_end_of e h = ground arith

finish-IsSettled :
    (status : ℤ) (l : NvmlLoader) (found : Nvml)
    → missing found ≡ false
    → l.initialized ≡ false
    → IsSettled l
    → IsSettled (finish_init status (loaded l found)).1
finish-IsSettled status l found complete closed w = elim (Bool-cases (int_eq status (pos 0))) [
  | inl e ↦
      let handle = w.handle_eq in
      let loads = w.loads in
      let begins = w.begins in
      rw e record {
        handle_eq = refl;
        can_end = λ h. can_end_of found complete;
        closed = λ h. cc;
        loads = ground arith;
        begins = ground arith;
      }
  | inr e ↦ rw e (failed-IsSettled l found closed w)
]

start-IsSettled :
    (moment : ℕ) (l : NvmlLoader) (found : Nvml)
    → l.initialized ≡ false
    → IsSettled l
    → IsSettled (start moment (loaded l found)).1
start-IsSettled moment l found closed w = elim (Option-cases found.fn_init) [
  | inl e ↦ rw e (failed-IsSettled l found closed w)
  | inr p ↦ rw p.1 (elim (Bool-cases (missing found)) [
    | inl m ↦ rw m (failed-IsSettled l found closed w)
    | inr m ↦ rw m (finish-IsSettled (p.0 moment) l found m closed w)
  ])
]

pub init-IsSettled :
    (moment : ℕ) (dll : Option Nvml) (l : NvmlLoader)
    → IsSettled l
    → IsSettled (init moment dll l).1
unfolding init
init-IsSettled moment none l w = elim (Bool-cases l.initialized) [
  | inl e ↦ simp e w
  | inr e ↦ simp e w
]
init-IsSettled moment (some found) l w = elim (Bool-cases l.initialized) [
  | inl e ↦ simp e w
  | inr e ↦ rw e (start-IsSettled moment l found e w)
]

run-IsSettled : (ops : List Op) (l : NvmlLoader) → IsSettled l → IsSettled (run ops l)
run-IsSettled [] l w = w
run-IsSettled (do_init moment dll ∷ ops) l w = run-IsSettled ops _ (init-IsSettled moment dll l w)
run-IsSettled (do_shutdown ∷ ops) l w = run-IsSettled ops _ (shutdown-IsSettled l w)

pub shutdown-Balanced :
    (l : NvmlLoader)
    → IsSettled l
    → (count load_library (shutdown l).calls ≡ count free_library (shutdown l).calls)
      × (count begin_driver (shutdown l).calls ≡ count end_driver (shutdown l).calls)
unfolding shutdown
shutdown-Balanced l w =
    let after = shutdown-IsSettled l w in (omega (arith, after.loads), omega (arith, after.begins))

-- Whatever sequence of initialisations, successful or not, and shutdowns a new loader has seen, its
-- destructor, which shuts it down, leaves as many calls of `FreeLibrary` as of a successful
-- `LoadLibraryW`, and as many ends of the driver as successful beginnings; and before it at most one
-- library is held and the driver is up exactly while it is.
run-Balanced :
    (ops : List Op)
    → (count load_library (shutdown (run ops new_loader)).calls
        ≡ count free_library (shutdown (run ops new_loader)).calls)
      × (count begin_driver (shutdown (run ops new_loader)).calls
          ≡ count end_driver (shutdown (run ops new_loader)).calls)
      × ((run ops new_loader).dll_handle ≡ (run ops new_loader).initialized)
      × (count load_library (run ops new_loader).calls
          ≡ count free_library (run ops new_loader).calls + to_ℕ (run ops new_loader).dll_handle)
run-Balanced ops =
    let w = run-IsSettled ops new_loader new_loader-IsSettled in
    let given = shutdown-Balanced _ w in (given.0, given.1, w.handle_eq, w.loads)

init-refused :
    (moment : ℕ) (dll : Option Nvml) (l : NvmlLoader) (warning : Text)
    → (init moment dll l).0 ≡ some warning
    → (init moment dll l).1.initialized ≡ false
unfolding init shutdown
init-refused moment dll l warning h = ground arith

-- An initialisation of a settled loader that returns false, for whichever reason, leaves nothing
-- behind: no library is held, every function pointer is null, and what was loaded or begun has been
-- given back.
init-Closed :
    (moment : ℕ) (dll : Option Nvml) (l : NvmlLoader) (warning : Text)
    → IsSettled l
    → (init moment dll l).0 ≡ some warning
    → ((init moment dll l).1.dll_handle ≡ false)
      × ((init moment dll l).1.entries ≡ no_nvml)
      × (count load_library (init moment dll l).1.calls
          ≡ count free_library (init moment dll l).1.calls)
      × (count begin_driver (init moment dll l).1.calls
          ≡ count end_driver (init moment dll l).1.calls)
init-Closed moment dll l warning w h =
    let after = init-IsSettled moment dll l w in
    let off = init-refused moment dll l warning h in
    let released = after.handle_eq ∙ off in
    (
      released,
      after.closed off,
      omega (arith, after.loads, ap to_ℕ released),
      omega (arith, after.begins, ap to_ℕ off),
    )
