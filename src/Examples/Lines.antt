-- ===== src/Examples/Lines.antt =====
-- The parser and the service over a small JSON: trees, and a reader that knows one line.
use capacity_agent.Base.{
  ℕ, zero, suc, ◌≡◌, refl, Bool, true, false, Option, none, some, List, [], ◌∷◌, ◌++◌, Text, codes,
  text_eq, if◌then◌else◌,
}
use capacity_agent.Base.Int.{pos}
use capacity_agent.Base.Results.{ok}
use capacity_agent.Bridge.Messages.{BridgeMessage, heartbeat}
use capacity_agent.Bridge.Parser.{
  CJson, parse_bridge_message, parse_typed, parse_heartbeat, parse_envelope, get_timestamp,
  get_required_string, get_required_int, get_required_int64, get_number, require_string,
  require_number,
}
use capacity_agent.Bridge.Parser.Accepts.{Accepted, parse_bridge_message-Accepted}
use capacity_agent.Bridge.Calendar.{
  days_from_civil, march_days, day_of_year, era_of, to_u32, day_of_era, to_i32,
}
use capacity_agent.Bridge.Timestamp.{
  parse_iso8601_utc_ms, parse_int, has_separators, fraction, pad_ms, time_zone, epoch_ms,
}
use capacity_agent.Base.Int.{◌+ℤ◌, ◌-ℤ◌, ◌*ℤ◌}
use capacity_agent.Store.Atomic.{each}
use capacity_agent.Store.Transaction.{durable}
use capacity_agent.Store.Effects.{effect}
use capacity_agent.Store.Consistent.{Consistent}
use capacity_agent.Examples.Tables.{no_rows, closed, no_rows-Consistent}
use capacity_agent.Service.{handle_all}
use capacity_agent.Service.Ingest.{run_pipe, run_pipe-eq_effects}
use capacity_agent.Pipe.Framing.{clients, all_messages}
use capacity_agent.Service.Replay.{accepted, Holding, handle_all-Consistent, handle_all-eq_effects}

mutual
  data Tree : Type 0 where
    text : Text → Tree
    number : ℕ → Tree
    array : Trees → Tree
    object : Trees → Tree

  data Trees : Type 0 where
    end : Trees
    entry : Text → Tree → Trees → Trees

abbrev lookup : Trees → Text → Option Tree
lookup end key = none
lookup (entry k t ts) key = let rest = lookup ts key in if text_eq k key then some t else rest

abbrev nth : Trees → ℕ → Option Tree
nth end i = none
nth (entry k t ts) zero = some t
nth (entry k t ts) (suc i) = nth ts i

abbrev size : Trees → ℕ
size end = 0
size (entry k t ts) = suc (size ts)

abbrev get : Tree → Text → Option Tree
get (object ts) key = lookup ts key
get _ key = none

abbrev items : Tree → Trees
items (array ts) = ts
items _ = end

abbrev is_object : Tree → Bool
is_object (object ts) = true
is_object _ = false

abbrev is_array : Tree → Bool
is_array (array ts) = true
is_array _ = false

abbrev is_string : Tree → Bool
is_string (text t) = true
is_string _ = false

abbrev is_number : Tree → Bool
is_number (number n) = true
is_number _ = false

abbrev value : Tree → ℕ
value (number n) = n
value _ = 0

abbrev valuestring : Tree → Option Text
valuestring (text t) = some t
valuestring _ = none

abbrev line : Text
line = codes "{\"type\":\"heartbeat\"}"

abbrev root : Tree
root = object (
    entry (codes "type") (text (codes "heartbeat")) (
      entry (codes "schema_version") (number 1) (
        entry (codes "source") (text (codes "librehw_bridge")) (
          entry (codes "machine_id") (text (codes "pc")) (
            entry (codes "sent_at_utc") (text (codes "1970-01-01T00:00:00Z")) (
              entry (codes "status") (text (codes "ok")) (
                entry (codes "uptime_s") (number 60)
                  (entry (codes "catalog_count") (number 2) end))))))))

-- The reader of trees; it reads the one line above.
abbrev trees : CJson ℕ
trees = record {
  Node = Tree;
  parse = λ t. if text_eq t line then some root else none;
  get_object_item_case_sensitive = get;
  is_object = is_object;
  is_array = is_array;
  is_string = is_string;
  is_number = is_number;
  is_true = λ t. false;
  valuestring = valuestring;
  valueint = λ t. pos (value t);
  valuedouble = value;
  valueint64 = λ t. pos (value t);
  print_unformatted = λ t. none;
  get_array_size = λ t. size (items t);
  get_array_item = λ t i. nth (items t) i;
}

abbrev beat : BridgeMessage ℕ
beat = heartbeat (record {
  envelope = record {
    schema_version = pos 1;
    source = codes "librehw_bridge";
    machine_id = codes "pc";
    sent_at_utc_ms = pos 0;
  };
  status = codes "ok";
  uptime_seconds = pos 60;
  catalog_count = pos 2;
})

heartbeat_test : parse_bridge_message trees line ≡ ok beat
unfolding text_eq parse_bridge_message parse_typed parse_heartbeat parse_envelope get_timestamp
    get_required_string get_required_int get_required_int64 get_number require_string require_number
    parse_iso8601_utc_ms parse_int has_separators fraction pad_ms time_zone epoch_ms days_from_civil
    march_days day_of_year era_of to_u32 day_of_era to_i32 ◌+ℤ◌ ◌-ℤ◌ ◌*ℤ◌
heartbeat_test = refl

parse_bridge_message-Accepted_example : Accepted trees line beat
parse_bridge_message-Accepted_example = parse_bridge_message-Accepted trees line beat heartbeat_test

closed-Holding : Holding no_rows closed
unfolding Holding
closed-Holding = (refl, refl)

handle_all-Consistent_example :
    Consistent (durable (handle_all trees (λ n. true) (line ∷ line ∷ []) closed))
handle_all-Consistent_example =
    handle_all-Consistent trees (λ n. true) (line ∷ line ∷ []) closed no_rows-Consistent

handle_all-eq_effects_example :
    Holding
      (each effect (accepted trees (line ∷ line ∷ [])) no_rows)
      (handle_all trees (λ n. false) (line ∷ line ∷ []) closed)
handle_all-eq_effects_example =
    handle_all-eq_effects trees (λ n. false) (λ n. refl) (line ∷ line ∷ []) no_rows closed
      closed-Holding

-- A client whose line comes in two reads, and another.
abbrev streams : List (List Text)
streams = (codes "{\"type\":\"hea" ∷ codes "rtbeat\"}\n" ∷ []) ∷ ((line ++ codes "\n") ∷ []) ∷ []

run_pipe-eq_effects_example :
    Holding
      (each effect (accepted trees (all_messages streams)) no_rows)
      (run_pipe trees (λ n. false) (clients streams) closed)
run_pipe-eq_effects_example =
    run_pipe-eq_effects trees (λ n. false) (λ n. refl) streams no_rows closed (tt, (tt, tt))
      closed-Holding
