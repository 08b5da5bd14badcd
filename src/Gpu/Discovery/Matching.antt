-- ===== src/Gpu/Discovery/Matching.antt =====
-- What the probe knows of each GPU after its initialisation.
use capacity_agent.Base.{
  ℕ, zero, suc, min, ◌+◌, ◌≤◌, ◌<◌, ◌≡◌, ◌≢◌, refl, ap, sym, ◌∙◌, ◌⊎◌, inl, inr, Bool, true, false,
  ◌&&◌, ◌==◌, ==_iff, Option, none, some, List, [], ◌∷◌, Text, get_elem?, arith, Bool-cases,
  if◌then◌else◌,
}
use capacity_agent.Base.Options.{some_inj}
use capacity_agent.Base.Int.{ℤ, pos, negsuc, ltb_ℤ}
use capacity_agent.Store.Tables.{int_eq}
use capacity_agent.Gpu.Driver.{NvApi, Nvml, Sensor, GpuThermalSettings}
use capacity_agent.Gpu.Thermals.{
  Mask, GetThermal, NvThermalDiscovery, undiscovered, discover_sensors, mem_candidates,
}
use capacity_agent.Gpu.Thermals.Roles.{IsDiscovery, IsFirst, discover_sensors-IsDiscovery}
use capacity_agent.Gpu.Probe.{answer}
use capacity_agent.Gpu.Contexts.{GpuBackendContext, Impl}
use capacity_agent.Gpu.NvapiLoader as NvapiLoader
use capacity_agent.Gpu.Discovery.{
  NvmlDevInfo, on_bus, match_device, hotspot_from, find_hotspot, context_of, contexts_from,
  enumerate, init_devices, init_loaded, init, resolve_all, nvml_devices, never, index_or, gpu_count,
}

-- An index into an array of `n` entries, or -1.
abbrev pub IsIndex : ℕ → ℤ → Type 0
IsIndex n (pos i) = i < n
IsIndex n (negsuc i) = i ≡ 0

-- The indices that the samples use are inside the arrays that the driver fills: `sensor[3]` and
-- `temperatures[32]`; and they are -1 exactly where the role is not filled.
pub record IsSafe (g : GpuBackendContext) : Type 0 where
  pub hotspot : IsIndex 3 g.hotspot_sensor_idx
  pub core : IsIndex 32 g.thermal_disc.core_index
  pub memj : IsIndex 32 g.thermal_disc.memj_index

IsIndex-mono : (m n : ℕ) (r : ℤ) → m ≤ n → IsIndex m r → IsIndex n r
IsIndex-mono m n (pos i) h k = omega arith
IsIndex-mono m n (negsuc i) h k = k

hotspot_from-IsIndex :
    (sensor : ℕ → Sensor) (si n m : ℕ)
    → m ≡ si + n
    → IsIndex m (index_or (hotspot_from sensor si n))
unfolding hotspot_from
hotspot_from-IsIndex sensor si zero m h = refl
hotspot_from-IsIndex sensor si (suc n) m h =
    elim (Bool-cases
      (int_eq (sensor si).target (pos 16) && ltb_ℤ (pos 0) (sensor si).current_temp)) [
        | inl e ↦ rw e (omega arith)
        | inr e ↦ rw e (hotspot_from-IsIndex sensor (suc si) n m (omega arith))
      ]

find_hotspot-IsIndex : (o : Option GpuThermalSettings) → IsIndex 3 (index_or (find_hotspot o))
unfolding find_hotspot
find_hotspot-IsIndex none = refl
find_hotspot-IsIndex (some ts) =
    IsIndex-mono (min ts.count 3) 3 (index_or (hotspot_from ts.sensor 0 (min ts.count 3)))
      (omega arith)
      (hotspot_from-IsIndex ts.sensor 0 (min ts.count 3) (min ts.count 3) (omega arith))

first-IsIndex :
    (mask : Mask) (temperatures : ℕ → ℤ) (r : ℤ)
    → IsFirst mask temperatures mem_candidates r
    → IsIndex 32 r
first-IsIndex mask temperatures r h = elim h [
  | inl a ↦ rw a.1 (omega arith)
  | inr b ↦ elim b.1 [
    | inl a ↦ rw a.1 (omega arith)
    | inr c ↦ elim c.1 [
      | inl a ↦ rw a.1 (omega arith)
      | inr e ↦ elim e.1 [ inl a ↦ rw a.1 (omega arith) | inr z ↦ rw z.1 refl ]
    ]
  ]
]

core_IsIndex : (b : Bool) → IsIndex 32 (if b then pos 1 else negsuc 0)
core_IsIndex true = omega arith
core_IsIndex false = refl

abbrev HasIndices : NvThermalDiscovery → Type 0
HasIndices disc = IsIndex 32 disc.core_index × IsIndex 32 disc.memj_index

IsDiscovery-HasIndices :
    (f : GetThermal) (gpu : ℕ) (disc : NvThermalDiscovery)
    → IsDiscovery f gpu disc
    → HasIndices disc
IsDiscovery-HasIndices f gpu disc w = (
  rw w.core_eq (core_IsIndex _),
  first-IsIndex disc.mask w.temperatures disc.memj_index w.memj_first,
)

discover-HasIndices :
    (ready : Bool) (fn : Option GetThermal) (handle : ℕ)
    → HasIndices
        (discover_sensors (record { ready = ready; fn_get_thermal_u = fn }) handle undiscovered).1
unfolding discover_sensors
discover-HasIndices false fn handle = (refl, refl)
discover-HasIndices true none handle = (refl, refl)
discover-HasIndices true (some f) handle =
    elim (discover_sensors-IsDiscovery f handle undiscovered) [
      | inl r ↦ IsDiscovery-HasIndices f handle _ r.1
      | inr r ↦ rw r.1 (refl, refl)
    ]

context_of-IsSafe :
    (p : Impl) (moment : ℕ) (devs : List NvmlDevInfo) (i handle : ℕ)
    → IsSafe (context_of p moment devs i handle)
unfolding context_of
context_of-IsSafe p moment devs i handle =
    let indices = discover-HasIndices p.thermals.ready p.thermals.fn_get_thermal_u handle in
    record {
      hotspot = find_hotspot-IsIndex (answer p.fn_thermal_doc moment handle);
      core = indices.0;
      memj = indices.1;
    }

context_at_position :
    (p : Impl) (moment : ℕ) (devs : List NvmlDevInfo) (k handle : ℕ) (g : GpuBackendContext)
    → g ≡ context_of p moment devs k handle
    → IsSafe g × (g.info.index ≡ pos k) × (g.last_poll ≡ never)
unfolding context_of
context_at_position p moment devs k handle g e =
    rw e (context_of-IsSafe p moment devs k handle, refl, refl)

-- The context at a position is that of the handle at it.
get_elem?-contexts_from :
    (p : Impl) (moment : ℕ) (devs : List NvmlDevInfo) (handles : List ℕ) (i k j : ℕ)
    → j ≡ k + i
    → (g : GpuBackendContext) → get_elem? (contexts_from p moment devs i handles) k ≡ some g
    → (handle : ℕ) × (get_elem? handles k ≡ some handle) × (g ≡ context_of p moment devs j handle)
unfolding contexts_from
get_elem?-contexts_from p moment devs [] i k j e g h = cc
get_elem?-contexts_from p moment devs (handle ∷ handles) i zero j e g h =
    let e : j ≡ i = omega arith in (handle, refl, sym (some_inj h) ∙ rw e refl)
get_elem?-contexts_from p moment devs (handle ∷ handles) i (suc k) j e g h =
    get_elem?-contexts_from p moment devs handles (suc i) k j (omega arith) g h

-- The contexts of a probe that is initialised: there is one at least, each has its position as its
-- index, no sample of it was served yet, and its indices are in bounds.
abbrev pub HasContexts : Impl → Type 0
HasContexts p =
    (0 < gpu_count p)
    × ((k : ℕ) (g : GpuBackendContext)
        → get_elem? p.gpus k ≡ some g
        → IsSafe g × (g.info.index ≡ pos k) × (g.last_poll ≡ never))

abbrev pub HasInit : Impl → Bool × Text × Impl → Type 0
HasInit p r = ((r.0 ≡ true) × HasContexts r.2) ⊎ ((r.0 ≡ false) × (r.2.gpus ≡ p.gpus))

enumerate-HasInit :
    (strtoul : Text → ℕ) (moment : ℕ) (have_nvml : Bool) (handles : Option (List ℕ)) (w : Text)
    (p : Impl)
    → HasInit p (enumerate strtoul moment have_nvml handles w p)
unfolding enumerate
enumerate-HasInit strtoul moment have_nvml none w p = inr (refl, refl)
enumerate-HasInit strtoul moment have_nvml (some []) w p = inr (refl, refl)
enumerate-HasInit strtoul moment have_nvml (some (handle ∷ handles)) w p =
    let devs = nvml_devices strtoul p.nvml moment have_nvml in
    inl (
      refl,
      (
        omega arith,
        λ k g e.
            let at =
              get_elem?-contexts_from p moment devs (handle ∷ handles) 0 k k (omega arith) g e in
            context_at_position p moment devs k at.0 g at.2,
      ),
    )

init_devices-HasInit :
    (strtoul : Text → ℕ) (moment : ℕ) (nvml_dll : Option Nvml) (f : Option (ℕ → Option (List ℕ)))
    (w : Text) (p : Impl)
    → HasInit p (init_devices strtoul moment nvml_dll f w p)
unfolding init_devices
init_devices-HasInit strtoul moment nvml_dll none w p = inr (refl, refl)
init_devices-HasInit strtoul moment nvml_dll (some f) w p =
    enumerate-HasInit strtoul moment _ (f moment) _ _

init_loaded-HasInit :
    (strtoul : Text → ℕ) (moment : ℕ) (nvml_dll : Option Nvml) (warning : Option Text) (w : Text)
    (p : Impl)
    → HasInit p (init_loaded strtoul moment nvml_dll warning w p)
unfolding init_loaded
init_loaded-HasInit strtoul moment nvml_dll none w p =
    init_devices-HasInit strtoul moment nvml_dll (resolve_all p).fn_enum_gpus w (resolve_all p)
init_loaded-HasInit strtoul moment nvml_dll (some warning) w p = inr (refl, refl)

-- Whatever the two libraries of the driver hold and answer: the initialisation of the probe either
-- returns true, and then the probe has contexts as `HasContexts` says, or returns false and has left the
-- list of contexts as it was.
pub init-HasInit :
    (strtoul : Text → ℕ) (moment : ℕ) (nvml_dll : Option Nvml) (nvapi_dll : Option (Option NvApi))
    (w : Text) (p : Impl)
    → HasInit p (init strtoul moment nvml_dll nvapi_dll w p)
unfolding init
init-HasInit strtoul moment nvml_dll nvapi_dll w p =
    let nvapi = NvapiLoader.init moment nvapi_dll p.nvapi in
    init_loaded-HasInit strtoul moment nvml_dll nvapi.0 w (record p { nvapi = nvapi.1 })

not_before :
    (b : ℕ) (nd : NvmlDevInfo) (nds : List NvmlDevInfo) (k : ℕ)
    → (nd.pci_bus == b) ≡ false
    → ((j : ℕ) (other : NvmlDevInfo) → j < k → get_elem? nds j ≡ some other → other.pci_bus ≢ b)
    → (j : ℕ) (other : NvmlDevInfo) → j < suc k
    → get_elem? (nd ∷ nds) j ≡ some other
    → other.pci_bus ≢ b
not_before b nd nds k t h zero other lt e = λ m.
    let hit = (==_iff nd.pci_bus b).1 (ap (λ (o : NvmlDevInfo). o.pci_bus) (some_inj e) ∙ m) in cc
not_before b nd nds k t h (suc j) other lt e = h j other (omega arith) e

not_on :
    (b : ℕ) (nd : NvmlDevInfo) (nds : List NvmlDevInfo)
    → (nd.pci_bus == b) ≡ false
    → ((k : ℕ) (other : NvmlDevInfo) → get_elem? nds k ≡ some other → other.pci_bus ≢ b)
    → (k : ℕ) (other : NvmlDevInfo) → get_elem? (nd ∷ nds) k ≡ some other
    → other.pci_bus ≢ b
not_on b nd nds t h zero other e = λ m.
    let hit = (==_iff nd.pci_bus b).1 (ap (λ (o : NvmlDevInfo). o.pci_bus) (some_inj e) ∙ m) in cc
not_on b nd nds t h (suc k) other e = h k other e

-- The search for a device on a bus: the first one, or none is on it.
on_bus_cases :
    (b : ℕ) (devs : List NvmlDevInfo)
    → ((k : ℕ) × (nd : NvmlDevInfo) × (get_elem? devs k ≡ some nd)
        × (nd.pci_bus ≡ b)
        × ((j : ℕ) (other : NvmlDevInfo)
            → j < k
            → get_elem? devs j ≡ some other
            → other.pci_bus ≢ b)
        × (on_bus b devs ≡ some nd))
      ⊎ (((k : ℕ) (nd : NvmlDevInfo) → get_elem? devs k ≡ some nd → nd.pci_bus ≢ b)
          × (on_bus b devs ≡ none))
unfolding on_bus
on_bus_cases b [] = inr ((λ k nd e. cc), refl)
on_bus_cases b (nd ∷ nds) = elim (Bool-cases (nd.pci_bus == b)) [
  | inl t ↦ inl (0, nd, refl, (==_iff _ _).0 t, (λ j other lt. absurd (omega arith)), rw t refl)
  | inr t ↦ elim (on_bus_cases b nds) [
    | inl h ↦ inl (suc h.0, h.1, h.2, h.3, not_before b nd nds h.0 t h.4, rw t h.5)
    | inr h ↦ inr (not_on b nd nds t h.0, rw t h.1)
  ]
]

-- The device that a GPU is matched with: the first on the bus that `GetBusId` gives; and if the bus is
-- unknown or no device is on it, then the device at the GPU's own position, or none.
pub match_device_cases :
    (bus : Option ℕ) (i : ℕ) (devs : List NvmlDevInfo)
    → ((b : ℕ) × (k : ℕ) × (nd : NvmlDevInfo) × (bus ≡ some b)
        × (get_elem? devs k ≡ some nd)
        × (nd.pci_bus ≡ b)
        × ((j : ℕ) (other : NvmlDevInfo)
            → j < k
            → get_elem? devs j ≡ some other
            → other.pci_bus ≢ b)
        × (match_device bus i devs ≡ some nd))
      ⊎ (((b : ℕ) (k : ℕ) (nd : NvmlDevInfo)
            → bus ≡ some b
            → get_elem? devs k ≡ some nd
            → nd.pci_bus ≢ b)
          × (match_device bus i devs ≡ get_elem? devs i))
unfolding match_device
match_device_cases none i devs = inr ((λ b k nd e. cc), refl)
match_device_cases (some b) i devs = elim (on_bus_cases b devs) [
  | inl h ↦ inl (b, h.0, h.1, refl, h.2, h.3, h.4, rw (h.5, match_device) refl)
  | inr h ↦
      inr
        ((λ b' k nd e. let same = some_inj e in rw⁻¹ same (h.0 k nd)), rw (h.1, match_device) refl)
]
