-- ===== src/Api/History.antt =====
-- What /v1/history of apps/host_agent/src/api/http_server.cpp answers.
use capacity_agent.Base.{
  ℕ, zero, suc, ◌≡◌, ◌⊎◌, refl, inl, inr, Option-cases, true, false, Option, none, some, List, Text,
  arith, Bool-cases, if◌then◌else◌,
}
use capacity_agent.Base.Int.{ℤ, pos, negsuc, ◌≤ℤ◌, ltb_ℤ, int_laws}
use capacity_agent.Store.Tables.{SampleRow, Db}
use capacity_agent.Store.Queries.{query_sensor_history}
use capacity_agent.Store.Queries.History.{Window, query_sensor_history-Window}
use capacity_agent.Api.{
  HistoryRequest, HistoryResponse, history, sensor_uid_required, exception, clamp_limit, get_limit,
  param_or, get_history,
}

-- A limit that is not positive counts as 500, and one above 10000 as 10000.
abbrev LimitFits : ℤ → ℕ → Type 0
LimitFits limit n =
    ((limit ≤ℤ pos 0) × (n ≡ 500))
    ⊎ (((pos 1 ≤ℤ limit) × (limit ≤ℤ pos 10000) × (pos n ≡ limit))
        ⊎ ((pos 10001 ≤ℤ limit) × (n ≡ 10000)))

clamp_pos :
    (k : ℕ) → LimitFits (pos (suc k)) (if ltb_ℤ (pos 10000) (pos (suc k)) then 10000 else suc k)
clamp_pos k = elim (Bool-cases (ltb_ℤ (pos 10000) (pos (suc k)))) [
  | inl e ↦ rw e (inr (inr (ground arith, refl)))
  | inr e ↦ rw e (inr (inl (omega arith, ground arith, refl)))
]

clamp_limit-LimitFits : (limit : ℤ) → LimitFits limit (clamp_limit limit)
unfolding clamp_limit
clamp_limit-LimitFits (negsuc k) =
    let negative : ltb_ℤ (pos 0) (negsuc k) ≡ false = ground arith in
    rw negative (inl (omega int_laws, refl))
clamp_limit-LimitFits (pos zero) = inl (omega int_laws, refl)
clamp_limit-LimitFits (pos (suc k)) =
    let positive : ltb_ℤ (pos 0) (pos (suc k)) ≡ true = ground arith in rw positive (clamp_pos k)

-- A number of the request, or its default where it is missing.
abbrev IsRead : (Text → Option ℤ) → ℤ → Option Text → ℤ → Type 0
IsRead read default none value = value ≡ default
IsRead read default (some t) value = read t ≡ some value

abbrev IsUnreadable : (Text → Option ℤ) → Option Text → Type 0
IsUnreadable read none = ⊥
IsUnreadable read (some t) = read t ≡ none

module _ (stoi stoll : Text → Option ℤ) where
  abbrev IsLimit : Option Text → ℕ → Type 0
  IsLimit none n = n ≡ 500
  IsLimit (some t) n = (limit : ℤ) × (stoi t ≡ some limit) × LimitFits limit n

  -- What an answer with samples has to do with the request, the time and the tables.
  pub record Answers {D : Type 0} (request : HistoryRequest) (now : ℤ) (db : Db D)
      (r : HistoryResponse D) : Type 0 where
    pub uid : Text
    pub from_ms : ℤ
    pub to_ms : ℤ
    pub limit : ℕ
    pub rows : List (SampleRow D)
    pub is_history : r ≡ history uid from_ms to_ms rows
    pub asked : request.sensor_uid ≡ some uid
    pub from_read : IsRead stoll (pos 0) request.from_param from_ms
    pub to_read : IsRead stoll now request.to_param to_ms
    pub limit_read : IsLimit request.limit_param limit
    pub window : Window uid from_ms to_ms limit db rows

  -- A number that was given cannot be read.
  abbrev pub Fails : HistoryRequest → Type 0
  Fails request =
      IsUnreadable stoll request.from_param
      ⊎ (IsUnreadable stoll request.to_param ⊎ IsUnreadable stoi request.limit_param)

  IsRead-cases :
      (read : Text → Option ℤ) (default : ℤ) (param : Option Text)
      → IsUnreadable read param × (param_or read default param ≡ none)
        ⊎ ((value : ℤ) × (param_or read default param ≡ some value)
            × IsRead read default param value)
  IsRead-cases read default none = inr (default, refl, refl)
  IsRead-cases read default (some t) = elim (Option-cases (read t)) [
    | inl e ↦ inl (e, e)
    | inr (value, e) ↦ inr (value, e, e)
  ]

  IsLimit-cases :
      (param : Option Text)
      → IsUnreadable stoi param × (get_limit stoi stoll param ≡ none)
        ⊎ ((n : ℕ) × (get_limit stoi stoll param ≡ some n) × IsLimit param n)
  unfolding get_limit
  IsLimit-cases none = inr (500, refl, refl)
  IsLimit-cases (some t) = elim (Option-cases (stoi t)) [
    | inl e ↦ inl (e, rw e refl)
    | inr (limit, e) ↦ inr (clamp_limit limit, rw e refl, (limit, e, clamp_limit-LimitFits limit))
  ]

  module _ {D : Type 0} (request : HistoryRequest) (now : ℤ) (db : Db D) where
    answers_to :
        (uid : Text)
        → request.sensor_uid ≡ some uid
        → Fails request × (get_history stoi stoll request now db ≡ exception)
          ⊎ Answers request now db (get_history stoi stoll request now db)
    unfolding get_history
    answers_to uid asked = elim (IsRead-cases stoll (pos 0) request.from_param) [
      | inl (bad, e) ↦ inl (inl bad, rw (asked, e) refl)
      | inr (from_ms, e, from_read) ↦ elim (IsRead-cases stoll now request.to_param) [
        | inl (bad, f) ↦ inl (inr (inl bad), rw (asked, e, f) refl)
        | inr (to_ms, f, to_read) ↦ elim (IsLimit-cases request.limit_param) [
          | inl (bad, g) ↦ inl (inr (inr bad), rw (asked, e, f, g) refl)
          | inr (limit, g, limit_read) ↦ inr (record {
            uid = uid;
            from_ms = from_ms;
            to_ms = to_ms;
            limit = limit;
            rows = query_sensor_history uid from_ms to_ms limit db;
            is_history = rw (asked, e, f, g) refl;
            asked = asked;
            from_read = from_read;
            to_read = to_read;
            limit_read = limit_read;
            window = query_sensor_history-Window uid from_ms to_ms limit db;
          })
        ]
      ]
    ]

    -- /v1/history answers in one of three ways: it asks for the sensor_uid, where that is missing; an
    -- exception leaves it, where the sensor_uid is given and one of the numbers that are given cannot
    -- be read; or it gives the newest samples of the sensor asked for, the newest first: those
    -- that are stored from the time `from`, or 0, up to the time `to`, or now, and of them as many as there
    -- are or as the limit allows, which is the one given, but 500 where it is missing or not
    -- positive, and 10000 where it is larger.
    pub get_history-Answers :
        ((request.sensor_uid ≡ none)
          × (get_history stoi stoll request now db ≡ sensor_uid_required))
        ⊎ (((uid : Text) × (request.sensor_uid ≡ some uid)
              × Fails request
              × (get_history stoi stoll request now db ≡ exception))
            ⊎ Answers request now db (get_history stoi stoll request now db))
    unfolding get_history
    get_history-Answers = elim (Option-cases request.sensor_uid) [
      | inl e ↦ inl (e, rw e refl)
      | inr (uid, e) ↦ inr (elim (answers_to uid e) [
        | inl failed ↦ inl (uid, e, failed.0, failed.1)
        | inr answer ↦ inr answer
      ])
    ]
