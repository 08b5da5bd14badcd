-- ===== src/CommandLine.antt =====
-- `wmain` of apps/host_agent/src/main.cpp up to the construction of the service, and the settings of
-- apps/host_agent/include/host_agent/model/telemetry_models.h. An argument is the list of its UTF-16 units.
-- `WideToUtf8` goes by a call of Windows and is a parameter, as is `stoi`, with none for an exception.
pub mod Options
use capacity_agent.Base.{
  ℕ, Bool, true, false, ◌||◌, Option, none, some, List, [], ◌∷◌, Text, codes, text_eq,
  if◌then◌else◌,
}
use capacity_agent.Base.Int.{ℤ, pos}

pub record ApiConfig : Type 0 where
  pub bind : Text
  pub port : ℤ

pub record GpuCollectorConfig : Type 0 where
  pub enabled : Bool
  pub sample_interval_ms : ℤ

pub record OllamaCollectorConfig : Type 0 where
  pub enabled : Bool
  pub base_url : Text
  pub poll_interval_ms : ℤ

pub record PushConfig : Type 0 where
  pub url : Text
  pub interval_ms : ℤ

pub record ServiceConfig : Type 0 where
  pub pipe_name : Text
  pub schema_path : Text
  pub sqlite_path : Text
  pub machine_id : Text
  pub api : ApiConfig
  pub gpu : GpuCollectorConfig
  pub ollama : OllamaCollectorConfig
  pub push : PushConfig

abbrev pub default_config : ServiceConfig
default_config = record {
  pipe_name = codes "ollama_host_agent_lhm";
  schema_path = codes "apps/host_agent/sql/schema.sql";
  sqlite_path = codes "data/runtime/host_agent.db";
  machine_id = codes "local-machine";
  api = record { bind = codes "127.0.0.1"; port = pos 8089 };
  gpu = record { enabled = true; sample_interval_ms = pos 500 };
  ollama = record {
    enabled = true;
    base_url = codes "http://127.0.0.1:11434";
    poll_interval_ms = pos 1000;
  };
  push = record { url = []; interval_ms = pos 5000 };
}

-- What the loop over the arguments ends with: the settings to run the service with, the return 0 after the
-- usage, one of the two returns of 1, or an exception of `stoi`.
pub data Outcome : Type 0 where
  start : ServiceConfig → Outcome
  usage : Outcome
  missing_value : Text → Outcome
  unknown_argument : Text → Outcome
  exception : Outcome

-- The three kinds of arguments that the loop tells apart before it looks for a value.
pub data Kind : Type 0 where
  help no_gpu no_ollama valued : Kind

unfoldable pub kind_of : Text → Kind
kind_of arg =
    if text_eq arg (codes "--help") || text_eq arg (codes "-h")
    then help
    else (if text_eq arg (codes "--no-gpu")
        then no_gpu
        else (if text_eq arg (codes "--no-ollama") then no_ollama else valued))

-- One argument with its value: the settings after it.
pub data Applied : Type 0 where
  applied : ServiceConfig → Applied
  unknown : Applied
  thrown : Applied

abbrev pub with_number : Option ℤ → (ℤ → ServiceConfig) → Applied
with_number none f = thrown
with_number (some n) f = applied (f n)

abbrev pub disable_gpu : ServiceConfig → ServiceConfig
disable_gpu c = record c { gpu = record c.gpu { enabled = false } }

abbrev pub disable_ollama : ServiceConfig → ServiceConfig
disable_ollama c = record c { ollama = record c.ollama { enabled = false } }

-- What follows an argument with a value.
abbrev pub then_parse : Text → Applied → (ServiceConfig → Outcome) → Outcome
then_parse arg (applied c) k = k c
then_parse arg unknown k = unknown_argument arg
then_parse arg thrown k = exception

module _ (to_utf8 : Text → Text) (stoi : Text → Option ℤ) where
  unfoldable pub apply : Text → Text → ServiceConfig → Applied
  apply arg value c =
      if text_eq arg (codes "--pipe-name")
      then applied (record c { pipe_name = value })
      else (if text_eq arg (codes "--schema-path")
          then applied (record c { schema_path = value })
          else (if text_eq arg (codes "--db-path")
              then applied (record c { sqlite_path = value })
              else (if text_eq arg (codes "--machine-id")
                  then applied (record c { machine_id = to_utf8 value })
                  else (if text_eq arg (codes "--api-bind")
                      then applied (record c { api = record c.api { bind = to_utf8 value } })
                      else (if text_eq arg (codes "--api-port")
                          then with_number (stoi value)
                              (λ (n : ℤ). record c { api = record c.api { port = n } })
                          else (if text_eq arg (codes "--ollama-url")
                              then applied (record c {
                                ollama = record c.ollama { base_url = to_utf8 value };
                              })
                              else (if text_eq arg (codes "--ollama-poll-ms")
                                  then with_number (stoi value) (λ (n : ℤ). record c {
                                    ollama = record c.ollama { poll_interval_ms = n };
                                  })
                                  else (if text_eq arg (codes "--gpu-sample-ms")
                                      then with_number (stoi value) (λ (n : ℤ). record c {
                                        gpu = record c.gpu { sample_interval_ms = n };
                                      })
                                      else (if text_eq arg (codes "--push-url")
                                          then applied (record c {
                                            push = record c.push { url = to_utf8 value };
                                          })
                                          else (if text_eq arg (codes "--push-interval-ms")
                                              then with_number (stoi value) (λ (n : ℤ). record c {
                                                push = record c.push { interval_ms = n };
                                              })
                                              else unknown))))))))))

  -- The loop over the arguments after the first.
  unfoldable pub parse : List Text → ServiceConfig → Outcome
  unfolding kind_of apply
  parse [] c = start c
  parse (arg ∷ []) c = elim (kind_of arg) [
    | help ↦ usage
    | no_gpu ↦ start (disable_gpu c)
    | no_ollama ↦ start (disable_ollama c)
    | valued ↦ missing_value arg
  ]
  parse (arg ∷ value ∷ rest) c = elim (kind_of arg) [
    | help ↦ usage
    | no_gpu ↦ parse (value ∷ rest) (disable_gpu c)
    | no_ollama ↦ parse (value ∷ rest) (disable_ollama c)
    | valued ↦ then_parse arg (apply arg value c) (parse rest)
  ]

-- `WideToUtf8`, where `convert` is what the two calls of `WideCharToMultiByte` give, if the first gives a size.
unfoldable pub wide_to_utf8 : (Text → Option Text) → Text → Text
wide_to_utf8 convert [] = []
wide_to_utf8 convert (c ∷ value) = elim (convert (c ∷ value)) [ none ↦ [] | some result ↦ result ]

-- The loop of `wmain` with the settings that it starts from.
unfoldable pub read_arguments : (Text → Option Text) → (Text → Option ℤ) → List Text → Outcome
unfolding parse wide_to_utf8
read_arguments convert stoi arguments = parse (wide_to_utf8 convert) stoi arguments default_config
