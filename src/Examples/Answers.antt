-- ===== src/Examples/Answers.antt =====
-- /v1/readiness and /v1/history at concrete rows; the numbers stand for `double`.
use mathlib.Core.Logic.{◌↔◌, ◌⊎◌}
use capacity_agent.Base.{
  ℕ, ◌+◌, ◌*◌, ◌/◌, ◌==◌, ◌≡◌, ltb, Option, none, some, [], ◌∷◌, Text, text_eq, codes, true,
  if◌then◌else◌,
}
use capacity_agent.Base.Int.{ℤ, pos, pos_part}
use capacity_agent.Base.Double.{Doubles}
use capacity_agent.Store.Rows.{GpuSnapshotRow, CollectorHealthRow}
use capacity_agent.Examples.Tables.{no_rows}
use capacity_agent.Api.{HistoryRequest, sensor_uid_required, exception, get_history, readiness}
use capacity_agent.Api.Verdicts.{fits, Backed, readiness_iff}
use capacity_agent.Api.History.{Answers, Fails, get_history-Answers}

abbrev pub naturals : Doubles
naturals = record {
  Double = ℕ;
  of_int = pos_part;
  lt = ltb;
  add = λ a b. a + b;
  eq = λ a b. a == b;
  mul = λ a b. a * b;
  div = λ a b. a / b;
  to_int = pos;
  to_int64 = pos;
}

abbrev pub gpu : GpuSnapshotRow ℕ
gpu = record {
  gpu_index = pos 0;
  gpu_name = [];
  core_c = some 60;
  hotspot_c = none;
  util_gpu_pct = some 10;
  vram_used_bytes = some (pos 2000);
  vram_total_bytes = some (pos 8000);
  power_w = some 100;
}

abbrev pub direct_gpu : CollectorHealthRow
direct_gpu = record {
  collector_id = codes "pc:direct_gpu";
  machine_id = codes "pc";
  source = codes "direct_gpu";
  collector_type = codes "gpu";
  status = codes "ok";
  last_hello_utc_ms = none;
  last_sample_utc_ms = some (pos 100000);
  last_error = none;
  updated_utc_ms = pos 100000;
}

readiness_iff_example :
    (fits
        (readiness naturals
          (pos 101000)
          (pos 101000)
          (pos 5000)
          (gpu ∷ [])
          (direct_gpu ∷ [])).verdict
      ≡ true)
    ↔ Backed naturals (pos 101000) (pos 5000) (gpu ∷ []) (direct_gpu ∷ [])
readiness_iff_example =
    readiness_iff naturals (pos 101000) (pos 101000) (pos 5000) (gpu ∷ []) (direct_gpu ∷ [])

-- A reader of numbers that knows "20000".
abbrev read : Text → Option ℤ
read t = if text_eq t (codes "20000") then some (pos 20000) else none

abbrev request : HistoryRequest
request = record {
  sensor_uid = some (codes "cpu/0");
  from_param = none;
  to_param = none;
  limit_param = some (codes "20000");
}

get_history-Answers_example :
    ((request.sensor_uid ≡ none)
      × (get_history read read request (pos 101000) no_rows ≡ sensor_uid_required))
    ⊎ (((uid : Text) × (request.sensor_uid ≡ some uid)
          × Fails read read request
          × (get_history read read request (pos 101000) no_rows ≡ exception))
        ⊎ Answers read read request
            (pos 101000)
            no_rows
            (get_history read read request (pos 101000) no_rows))
get_history-Answers_example = get_history-Answers read read request (pos 101000) no_rows
