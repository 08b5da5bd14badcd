-- ===== src/CommandLine/Options.antt =====
-- The options of the usage text, and what a command line of them does.
use capacity_agent.Base.{
  Bool, false, ◌||◌, ◌≡◌, refl, ap, ◌∙◌, arith, Option, some, List, [], ◌∷◌, ◌++◌, Text, codes,
  text_eq,
}
use capacity_agent.Base.Int.{ℤ}
use capacity_agent.CommandLine.{
  ServiceConfig, usage, missing_value, unknown_argument, valued, kind_of, Applied, unknown, apply,
  parse, then_parse,
}

-- One option, with its value as it is written; a number also with its value.
pub data Setting : Type 0 where
  pipe_name schema_path db_path machine_id api_bind ollama_url push_url : Text → Setting
  api_port ollama_poll_ms gpu_sample_ms push_interval_ms : Text → ℤ → Setting
  without_gpu without_ollama : Setting

-- The arguments that it is.
abbrev pub words : Setting → List Text
words (pipe_name t) = codes "--pipe-name" ∷ t ∷ []
words (schema_path t) = codes "--schema-path" ∷ t ∷ []
words (db_path t) = codes "--db-path" ∷ t ∷ []
words (machine_id t) = codes "--machine-id" ∷ t ∷ []
words (api_bind t) = codes "--api-bind" ∷ t ∷ []
words (ollama_url t) = codes "--ollama-url" ∷ t ∷ []
words (push_url t) = codes "--push-url" ∷ t ∷ []
words (api_port t n) = codes "--api-port" ∷ t ∷ []
words (ollama_poll_ms t n) = codes "--ollama-poll-ms" ∷ t ∷ []
words (gpu_sample_ms t n) = codes "--gpu-sample-ms" ∷ t ∷ []
words (push_interval_ms t n) = codes "--push-interval-ms" ∷ t ∷ []
words without_gpu = codes "--no-gpu" ∷ []
words without_ollama = codes "--no-ollama" ∷ []

abbrev pub all_words : List Setting → List Text
all_words [] = []
all_words (s ∷ ss) = words s ++ all_words ss

module _ (to_utf8 : Text → Text) (stoi : Text → Option ℤ) where
  -- The number is the one that is written.
  abbrev pub IsNumber : Setting → Type 0
  IsNumber (api_port t n) = stoi t ≡ some n
  IsNumber (ollama_poll_ms t n) = stoi t ≡ some n
  IsNumber (gpu_sample_ms t n) = stoi t ≡ some n
  IsNumber (push_interval_ms t n) = stoi t ≡ some n
  IsNumber other = Unit

  abbrev pub AreNumbers : List Setting → Type 0
  AreNumbers [] = Unit
  AreNumbers (s ∷ ss) = IsNumber s × AreNumbers ss

  -- The one field that it sets.
  abbrev pub set_to : Setting → ServiceConfig → ServiceConfig
  set_to (pipe_name t) c = record c { pipe_name = t }
  set_to (schema_path t) c = record c { schema_path = t }
  set_to (db_path t) c = record c { sqlite_path = t }
  set_to (machine_id t) c = record c { machine_id = to_utf8 t }
  set_to (api_bind t) c = record c { api = record c.api { bind = to_utf8 t } }
  set_to (ollama_url t) c = record c { ollama = record c.ollama { base_url = to_utf8 t } }
  set_to (push_url t) c = record c { push = record c.push { url = to_utf8 t } }
  set_to (api_port t n) c = record c { api = record c.api { port = n } }
  set_to (ollama_poll_ms t n) c = record c { ollama = record c.ollama { poll_interval_ms = n } }
  set_to (gpu_sample_ms t n) c = record c { gpu = record c.gpu { sample_interval_ms = n } }
  set_to (push_interval_ms t n) c = record c { push = record c.push { interval_ms = n } }
  set_to without_gpu c = record c { gpu = record c.gpu { enabled = false } }
  set_to without_ollama c = record c { ollama = record c.ollama { enabled = false } }

  abbrev pub set_all : List Setting → ServiceConfig → ServiceConfig
  set_all [] c = c
  set_all (s ∷ ss) c = set_all ss (set_to s c)

  -- One option is read, whatever follows it.
  parse-words :
      (s : Setting) (rest : List Text) (c : ServiceConfig)
      → IsNumber s
      → parse to_utf8 stoi (words s ++ rest) c ≡ parse to_utf8 stoi rest (set_to s c)
  unfolding parse kind_of text_eq
  parse-words (pipe_name t) rest c h = refl
  parse-words (schema_path t) rest c h = refl
  parse-words (db_path t) rest c h = refl
  parse-words (machine_id t) rest c h = refl
  parse-words (api_bind t) rest c h = refl
  parse-words (ollama_url t) rest c h = refl
  parse-words (push_url t) rest c h = refl
  parse-words (api_port t n) rest c h = rw h refl
  parse-words (ollama_poll_ms t n) rest c h = rw h refl
  parse-words (gpu_sample_ms t n) rest c h = rw h refl
  parse-words (push_interval_ms t n) rest c h = rw h refl
  parse-words without_gpu [] c h = refl
  parse-words without_gpu (r ∷ rest) c h = refl
  parse-words without_ollama [] c h = refl
  parse-words without_ollama (r ∷ rest) c h = refl

  append_assoc : (a b c : List Text) → (a ++ b) ++ c ≡ a ++ (b ++ c)
  append_assoc [] b c = refl
  append_assoc (x ∷ a) b c = ap (λ l. x ∷ l) (append_assoc a b c)

  -- Any options in any order, each possibly more than once, whose numbers are written as numbers, are
  -- read one after the other, and each sets its own field, before what follows them is read.
  pub parse-all_words :
      (ss : List Setting) (rest : List Text) (c : ServiceConfig)
      → AreNumbers ss
      → parse to_utf8 stoi (all_words ss ++ rest) c ≡ parse to_utf8 stoi rest (set_all ss c)
  parse-all_words [] rest c h = refl
  parse-all_words (s ∷ ss) rest c h =
      ap (λ l. parse to_utf8 stoi l c) (append_assoc (words s) (all_words ss) rest)
      ∙ parse-words s (all_words ss ++ rest) c h.0
      ∙ parse-all_words ss rest (set_to s c) h.1

abbrev pub is_in : Text → List Text → Bool
is_in t [] = false
is_in t (u ∷ us) = text_eq t u || is_in t us

-- The arguments that take a value, and those that take none.
abbrev pub valued_names : List Text
valued_names =
    codes "--pipe-name"
    ∷ codes "--schema-path"
    ∷ codes "--db-path"
    ∷ codes "--machine-id"
    ∷ codes "--api-bind"
    ∷ codes "--api-port"
    ∷ codes "--ollama-url"
    ∷ codes "--ollama-poll-ms"
    ∷ codes "--gpu-sample-ms"
    ∷ codes "--push-url"
    ∷ codes "--push-interval-ms"
    ∷ []

abbrev pub plain_names : List Text
plain_names = codes "--help" ∷ codes "-h" ∷ codes "--no-gpu" ∷ codes "--no-ollama" ∷ []

kind_of-valued : (arg : Text) → is_in arg plain_names ≡ false → kind_of arg ≡ valued
unfolding kind_of
kind_of-valued arg h = ground arith

apply-unknown :
    (to_utf8 : Text → Text) (stoi : Text → Option ℤ) (arg value : Text) (c : ServiceConfig)
    → is_in arg valued_names ≡ false
    → apply to_utf8 stoi arg value c ≡ unknown
unfolding apply
apply-unknown to_utf8 stoi arg value c h = ground arith

parse-missing :
    (to_utf8 : Text → Text) (stoi : Text → Option ℤ) (arg : Text) (c : ServiceConfig)
    → is_in arg plain_names ≡ false
    → parse to_utf8 stoi (arg ∷ []) c ≡ missing_value arg
unfolding parse
parse-missing to_utf8 stoi arg c h = rw (kind_of-valued arg h, parse) refl

parse-valued :
    (to_utf8 : Text → Text) (stoi : Text → Option ℤ) (arg value : Text) (rest : List Text)
    (c : ServiceConfig)
    → is_in arg plain_names ≡ false
    → parse to_utf8 stoi (arg ∷ value ∷ rest) c
      ≡ then_parse arg (apply to_utf8 stoi arg value c) (parse to_utf8 stoi rest)
unfolding parse
parse-valued to_utf8 stoi arg value rest c h = rw (kind_of-valued arg h, parse) refl

parse-help :
    (to_utf8 : Text → Text) (stoi : Text → Option ℤ) (rest : List Text) (c : ServiceConfig)
    → parse to_utf8 stoi (codes "--help" ∷ rest) c ≡ usage
unfolding parse kind_of text_eq
parse-help to_utf8 stoi [] c = refl
parse-help to_utf8 stoi (r ∷ rest) c = refl

-- A command line that starts with options whose numbers are written as numbers, and then goes wrong: an
-- argument other than --help, -h, --no-gpu and --no-ollama that is the last one lacks its value; one
-- with a value, that is none of the options, is unknown, whatever follows; and --help ends the
-- reading. In none of these cases is there a configuration to run with.
pub parse-all_words_error :
    (to_utf8 : Text → Text) (stoi : Text → Option ℤ) (ss : List Setting) (c : ServiceConfig)
    → AreNumbers to_utf8 stoi ss
    → ((arg : Text)
        → is_in arg plain_names ≡ false
        → parse to_utf8 stoi (all_words ss ++ (arg ∷ [])) c ≡ missing_value arg)
      × ((arg value : Text) (rest : List Text)
          → is_in arg plain_names ≡ false
          → is_in arg valued_names ≡ false
          → parse to_utf8 stoi (all_words ss ++ (arg ∷ value ∷ rest)) c ≡ unknown_argument arg)
      × ((rest : List Text)
          → parse to_utf8 stoi (all_words ss ++ (codes "--help" ∷ rest)) c ≡ usage)
parse-all_words_error to_utf8 stoi ss c h =
    let after = set_all to_utf8 stoi ss c in
    (
      λ arg plain.
          parse-all_words to_utf8 stoi ss (arg ∷ []) c h
          ∙ parse-missing to_utf8 stoi arg after plain,
      λ arg value rest plain none_of.
          parse-all_words to_utf8 stoi ss (arg ∷ value ∷ rest) c h
          ∙ parse-valued to_utf8 stoi arg value rest after plain
          ∙ ap (λ (a : Applied). then_parse arg a (parse to_utf8 stoi rest))
              (apply-unknown to_utf8 stoi arg value after none_of),
      λ rest.
          parse-all_words to_utf8 stoi ss (codes "--help" ∷ rest) c h
          ∙ parse-help to_utf8 stoi rest after,
    )
