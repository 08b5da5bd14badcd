-- ===== src/Gpu/Calls.antt =====
-- The calls of the two loaders of libs/gpu_telemetry that take or give back something outside the program,
-- kept in the order in which they are made, the latest first.
use capacity_agent.Base.{ℕ, ◌+◌, List, [], ◌∷◌, Bool, if◌then◌else◌}

pub data Call : Type 0 where
  -- `LoadLibraryW` that gave a handle, and `FreeLibrary`.
  load_library : Call
  free_library : Call
  -- The driver's initialisation with status 0, and its end.
  begin_driver : Call
  end_driver : Call

abbrev pub weight : Call → Call → ℕ
weight load_library load_library = 1
weight free_library free_library = 1
weight begin_driver begin_driver = 1
weight end_driver end_driver = 1
weight _ _ = 0

abbrev pub count : Call → List Call → ℕ
count a [] = 0
count a (c ∷ cs) = weight a c + count a cs

-- `c` in front if the test holds.
abbrev pub push_if : Bool → Call → List Call → List Call
push_if b c cs = if b then c ∷ cs else cs

abbrev pub to_ℕ : Bool → ℕ
to_ℕ b = if b then 1 else 0
