-- ===== src/Gpu/NvapiLoader/Ledger.antt =====
-- What the loader of nvapi64.dll takes, it gives back.
use capacity_agent.Base.{
  ℕ, ◌+◌, ◌≡◌, refl, sym, Bool, true, false, Option, none, some, ◌∷◌, inl, inr, Text, arith,
  Bool-cases, if◌then◌else◌,
}
use capacity_agent.Base.Options.{is_some}
use capacity_agent.Base.Int.{ℤ, pos}
use capacity_agent.Store.Tables.{int_eq}
use capacity_agent.Gpu.Calls.{load_library, free_library, begin_driver, end_driver, count, to_ℕ}
use capacity_agent.Gpu.Driver.{NvApi}
use capacity_agent.Gpu.NvapiLoader.{NvApiLoader, shutdown, init, start_by, finish_init, query}

-- What holds between two operations, as for the loader of NVML.
pub record IsSettled (l : NvApiLoader) : Type 0 where
  pub handle_eq : l.dll_handle ≡ l.initialized
  pub can_end : l.initialized ≡ true → is_some l.fn_unload ≡ true
  pub loads : count load_library l.calls ≡ count free_library l.calls + to_ℕ l.dll_handle
  pub begins : count begin_driver l.calls ≡ count end_driver l.calls + to_ℕ l.initialized

pub shutdown-IsSettled : (l : NvApiLoader) → IsSettled l → IsSettled (shutdown l)
unfolding shutdown
shutdown-IsSettled l w =
    let handle = w.handle_eq in
    let end = w.can_end in
    let loads = w.loads in
    let begins = w.begins in
    record { handle_eq = refl; can_end = λ h. cc; loads = ground arith; begins = ground arith }

pub shutdown-Balanced :
    (l : NvApiLoader)
    → IsSettled l
    → (count load_library (shutdown l).calls ≡ count free_library (shutdown l).calls)
      × (count begin_driver (shutdown l).calls ≡ count end_driver (shutdown l).calls)
unfolding shutdown
shutdown-Balanced l w =
    let after = shutdown-IsSettled l w in (omega (arith, after.loads), omega (arith, after.begins))

-- A loader with the library just loaded, whose driver has not begun.
record IsLoaded (l : NvApiLoader) : Type 0 where
  held : l.dll_handle ≡ true
  down : l.initialized ≡ false
  loads : count load_library l.calls ≡ count free_library l.calls + 1
  begins : count begin_driver l.calls ≡ count end_driver l.calls

fail-IsSettled : (l : NvApiLoader) → IsLoaded l → IsSettled (shutdown l)
unfolding shutdown
fail-IsSettled l w =
    let held = w.held in
    let down = w.down in
    let loads = w.loads in
    let begins = w.begins in
    record { handle_eq = refl; can_end = λ h. cc; loads = ground arith; begins = ground arith }

finish-IsSettled :
    (st : ℤ) (l : NvApiLoader)
    → is_some l.fn_unload ≡ true
    → IsLoaded l
    → IsSettled (finish_init st l).1
finish-IsSettled st l end w = elim (Bool-cases (int_eq st (pos 0))) [
  | inl e ↦
      let held = w.held in
      let loads = w.loads in
      let begins = w.begins in
      rw e
        record { handle_eq = held; can_end = λ h. end; loads = ground arith; begins = ground arith }
  | inr e ↦ rw e (fail-IsSettled l w)
]

start-IsSettled :
    (o : Option (ℕ → ℤ)) (moment : ℕ) (l : NvApiLoader)
    → IsLoaded l
    → IsSettled (start_by o moment l).1
start-IsSettled none moment l w = fail-IsSettled l w
start-IsSettled (some f) moment l w = elim (Bool-cases (is_some l.fn_unload)) [
  | inl m ↦ rw m (finish-IsSettled (f moment) l m w)
  | inr m ↦ rw m (fail-IsSettled l w)
]

query-IsSettled : (moment : ℕ) (l : NvApiLoader) → IsLoaded l → IsSettled (query moment l).1
query-IsSettled moment l w = elim (Bool-cases (is_some l.query_interface)) [
  | inl e ↦ rw e (
      start-IsSettled _ moment _
        record { held = w.held; down = w.down; loads = w.loads; begins = w.begins })
  | inr e ↦ rw e (fail-IsSettled l w)
]

taken-IsLoaded :
    (l : NvApiLoader) (found : Option NvApi)
    → l.initialized ≡ false
    → IsSettled l
    → IsLoaded
        (record l { dll_handle = true; query_interface = found; calls = load_library ∷ l.calls })
taken-IsLoaded l found down w =
    let handle = w.handle_eq in
    let loads = w.loads in
    let begins = w.begins in
    record { held = refl; down = down; loads = ground arith; begins = ground arith }

if-cases :
    {A : Type 0} (P : A → Type 0) (b : Bool) (x y : A)
    → (b ≡ true → P x)
    → (b ≡ false → P y)
    → P (if b then x else y)
if-cases P true x y h k = h refl
if-cases P false x y h k = k refl

released-IsSettled :
    (l : NvApiLoader)
    → l.initialized ≡ false
    → IsSettled l
    → IsSettled (record l { dll_handle = false })
released-IsSettled l down w =
    let handle = w.handle_eq in
    let loads = w.loads in
    record { handle_eq = sym down; can_end = w.can_end; loads = ground arith; begins = w.begins }

pub init-IsSettled :
    (moment : ℕ) (dll : Option (Option NvApi)) (l : NvApiLoader)
    → IsSettled l
    → IsSettled (init moment dll l).1
unfolding init
init-IsSettled moment none l w =
    if-cases (λ (r : Option Text × NvApiLoader). IsSettled r.1) l.initialized _ _ (λ e. w)
      (λ e. released-IsSettled l e w)
init-IsSettled moment (some found) l w =
    if-cases (λ (r : Option Text × NvApiLoader). IsSettled r.1) l.initialized _ _ (λ e. w)
      (λ e. query-IsSettled moment _ (taken-IsLoaded l found e w))
