-- ===== src/Examples/Arguments.antt =====
-- Command lines.
use capacity_agent.Base.{
  ◌≡◌, refl, false, Option, none, some, List, [], ◌∷◌, ◌++◌, Text, codes, text_eq, if◌then◌else◌,
}
use capacity_agent.Base.Int.{ℤ, pos}
use capacity_agent.CommandLine.{default_config, usage, missing_value, unknown_argument, parse}
use capacity_agent.CommandLine.Options.{
  Setting, api_port, without_gpu, all_words, set_all, is_in, plain_names, valued_names,
  parse-all_words, parse-all_words_error,
}

abbrev as_is : Text → Text
as_is t = t

-- A reader of numbers that knows one.
unfoldable pub read_number : Text → Option ℤ
read_number t = if text_eq t (codes "9000") then some (pos 9000) else none

knows : read_number (codes "9000") ≡ some (pos 9000)
unfolding read_number text_eq
knows = refl

abbrev settings : List Setting
settings = api_port (codes "9000") (pos 9000) ∷ without_gpu ∷ []

parse-all_words_example :
    parse as_is read_number (all_words settings ++ []) default_config
    ≡ parse as_is read_number [] (set_all as_is read_number settings default_config)
parse-all_words_example =
    parse-all_words as_is read_number settings [] default_config (knows, (tt, tt))

parse-all_words_error_example :
    ((arg : Text)
      → is_in arg plain_names ≡ false
      → parse as_is read_number (all_words settings ++ (arg ∷ [])) default_config
        ≡ missing_value arg)
    × ((arg value : Text) (rest : List Text)
        → is_in arg plain_names ≡ false
        → is_in arg valued_names ≡ false
        → parse as_is read_number (all_words settings ++ (arg ∷ value ∷ rest)) default_config
          ≡ unknown_argument arg)
    × ((rest : List Text)
        → parse as_is read_number (all_words settings ++ (codes "--help" ∷ rest)) default_config
          ≡ usage)
parse-all_words_error_example =
    parse-all_words_error as_is read_number settings default_config (knows, (tt, tt))

misspelt :
    parse as_is read_number (codes "--gpu" ∷ codes "1" ∷ []) default_config
    ≡ unknown_argument (codes "--gpu")
unfolding parse text_eq
misspelt = refl
