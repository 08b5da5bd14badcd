-- ===== src/Collectors/Ollama.antt =====
-- apps/host_agent/src/collectors/ollama_runtime_collector.cpp: `ParseHostPort`, `PollOnce` and the waiting
-- of `PollLoop`. The HTTP request, cJSON, the clock and `stoi` (with none for an exception) are arguments.
pub mod Polls
pub mod Sums
pub mod Waits
pub mod Laps
use Prim.Native.Nat.{min}
use capacity_agent.Base.{
  ℕ, zero, suc, ◌+◌, ◌-◌, Bool, true, false, not, ◌&&◌, ltb, ◌==◌, Option, none, some, List, [],
  ◌∷◌, ◌++◌, Text, codes, take, drop, length, if◌then◌else◌,
}
use capacity_agent.Base.Int.{ℤ, pos, ◌+ℤ◌, ◌-ℤ◌, ltb_ℤ}
use capacity_agent.Store.Json.{to_string}
use capacity_agent.Store.Tables.{int_eq}
use capacity_agent.Store.Connection.{Conn}
use capacity_agent.Store.Writes.{insert_ollama_runtime_sample, upsert_collector_health_direct}
use capacity_agent.Store.Bindings.{OllamaSample}
use capacity_agent.Pusher.{find_text, rfind, colon, slash}

-- What the collector uses of cJSON. `valueint64` is `static_cast<std::int64_t>(valuedouble)`, and
-- `children` are the nodes that `cJSON_ArrayForEach` visits.
pub record OllamaJson : Type 1 where
  pub Node : Type 0
  pub parse : Text → Option Node
  pub get_object_item : Node → Text → Option Node
  pub is_array : Node → Bool
  pub is_number : Node → Bool
  pub valueint64 : Node → ℤ
  pub get_array_size : Node → ℕ
  pub children : Node → List Node

-- False, an exception of `stoi`, or the host and the port.
pub data HostPort : Type 0 where
  rejected : HostPort
  exception : HostPort
  accepted : Text → ℤ → HostPort

-- `return !host.empty();`
abbrev pub accept : Text → ℤ → HostPort
accept [] port = rejected
accept (c ∷ host) port = accepted (c ∷ host) port

-- The scheme taken off.
abbrev pub without_scheme : Text → Text
without_scheme url = elim (find_text (codes "://") url) [ none ↦ url | some k ↦ drop (k + 3) url ]

-- One '/' at the end taken off.
unfoldable pub pop_slash : Text → Text
pop_slash [] = []
pop_slash (c ∷ []) = if c == slash then [] else c ∷ []
pop_slash (c ∷ b ∷ text) = c ∷ pop_slash (b ∷ text)

module _ (stoi : Text → Option ℤ) where
  abbrev pub with_port : Text → Option ℤ → HostPort
  with_port host none = exception
  with_port host (some port) = accept host port

  abbrev pub split_port : Text → Option ℕ → HostPort
  split_port rest none = accept rest (pos 11434)
  split_port rest (some k) = with_port (take k rest) (stoi (drop (k + 1) rest))

  unfoldable pub parse_host_port : Text → HostPort
  unfolding find_text rfind pop_slash
  parse_host_port url =
      let rest = pop_slash (without_scheme url) in split_port rest (rfind colon rest)

-- A response: its status and its body.
pub record Response : Type 0 where
  pub status : ℤ
  pub body : Text

-- `loaded_model_count`, `total_vram_bytes` and `total_ram_bytes`.
pub record Totals : Type 0 where
  pub models : ℤ
  pub vram : ℤ
  pub ram : ℤ

abbrev pub no_totals : Totals
no_totals = record { models = pos 0; vram = pos 0; ram = pos 0 }

module _ (json : OllamaJson) where
  -- The number under a name, or 0 for one that is missing or no number.
  abbrev pub number_or_zero : Option json.Node → ℤ
  number_or_zero none = pos 0
  number_or_zero (some node) = if json.is_number node then json.valueint64 node else pos 0

  -- The part of a size that is not in the memory of the GPU, if it is positive.
  abbrev pub rest_of : ℤ → ℤ → ℤ
  rest_of size vram = if ltb_ℤ vram size then size -ℤ vram else pos 0

  -- A model's share of `total_ram_bytes`.
  abbrev pub ram_of : Option json.Node → ℤ → ℤ
  ram_of none vram = pos 0
  ram_of (some node) vram =
      if json.is_number node then rest_of (json.valueint64 node) vram else pos 0

  abbrev pub vram_of : json.Node → ℤ
  vram_of model = number_or_zero (json.get_object_item model (codes "size_vram"))

  -- The loop over the models.
  unfoldable pub add_models : List json.Node → Totals → Totals
  add_models [] t = t
  add_models (model ∷ models) t = add_models models (record t {
    vram = t.vram +ℤ vram_of model;
    ram = t.ram +ℤ ram_of (json.get_object_item model (codes "size")) (vram_of model);
  })

  unfoldable pub totals_of : Option json.Node → Totals
  unfolding add_models
  totals_of none = no_totals
  totals_of (some models) =
      if json.is_array models
      then add_models (json.children models)
          (record no_totals { models = pos (json.get_array_size models) })
      else no_totals

abbrev pub positive : ℤ → Option ℤ
positive n = if ltb_ℤ (pos 0) n then some n else none

-- `last_error` of a response that is not good, which may be missing.
abbrev pub error_of : Option Response → Text
error_of none = codes "connection failed"
error_of (some r) = codes "HTTP " ++ to_string r.status

-- The body of a response with the status 200.
abbrev pub body_of : Option Response → Option Text
body_of none = none
body_of (some r) = if int_eq r.status (pos 200) then some r.body else none

abbrev pub sample_of : Text → Text → ℤ → Totals → OllamaSample
sample_of machine_id base_url now t = record {
  machine_id = machine_id;
  ts_utc_ms = now;
  base_url = base_url;
  active_requests = none;
  queued_requests = none;
  loaded_models = some t.models;
  resident_vram_bytes = positive t.vram;
  resident_ram_bytes = positive t.ram;
}

module _ (json : OllamaJson) {D : Type 0} (fails : ℕ → Bool) (machine_id base_url : Text)
    (now : ℤ) where
  abbrev pub report_health : Text → Option Text → Conn D → Conn D
  report_health status last_error c =
      (upsert_collector_health_direct fails machine_id (codes "ollama") (codes "ollama_poller")
        status now last_error c).1

  -- `PollOnce` from the parsed body on, and from the response on. Nobody reads whether a row was stored.
  abbrev pub store_totals : Totals → Conn D → Conn D
  store_totals t c =
      report_health (codes "ok") none
        (insert_ollama_runtime_sample fails (sample_of machine_id base_url now t) c).1

  abbrev pub poll_json : Option json.Node → Conn D → Bool × Conn D
  poll_json none c = (false, report_health (codes "error") (some (codes "invalid JSON")) c)
  poll_json (some root) c =
      (true, store_totals (totals_of json (json.get_object_item root (codes "models"))) c)

  abbrev pub poll_body : Option Response → Option Text → Conn D → Bool × Conn D
  poll_body response none c =
      (false, report_health (codes "unreachable") (some (error_of response)) c)
  poll_body response (some body) c = poll_json (json.parse body) c

  abbrev pub poll_at : HostPort → (Text → ℤ → Option Response) → Conn D → Option (Bool × Conn D)
  poll_at rejected get c = some (false, c)
  poll_at exception get c = none
  poll_at (accepted host port) get c = some (poll_body (get host port) (body_of (get host port)) c)

  -- `PollOnce`, where `get` gives what the request of /api/ps is answered with; nothing for an exception.
  unfoldable pub poll_once :
      (Text → Option ℤ) → (Text → ℤ → Option Response) → Conn D → Option (Bool × Conn D)
  unfolding parse_host_port totals_of
  poll_once stoi get c = poll_at (parse_host_port stoi base_url) get c

-- The waiting of `PollLoop`, `remaining` milliseconds, on fuel: the chunks that are slept, or nothing where
-- the fuel runs out. `running k` is what the `k`-th reading of the flag gives.
unfoldable pub sleep_chunks : ℕ → (ℕ → Bool) → ℕ → ℕ → Option (List ℕ)
sleep_chunks zero running k remaining = none
sleep_chunks (suc fuel) running k remaining =
    let chunk = min remaining 250 in
    let rest = sleep_chunks fuel running (suc k) (remaining - chunk) in
    if ltb 0 remaining && running k
    then (elim rest [ none ↦ none | some chunks ↦ some (chunk ∷ chunks) ])
    else some []
