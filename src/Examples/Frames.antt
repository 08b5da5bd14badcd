-- ===== src/Examples/Frames.antt =====
-- Pipe framing and JSON strings.
use capacity_agent.Base.{◌≡◌, Text, codes, List, [], ◌∷◌, ◌++◌, some, true}
use capacity_agent.Pipe.{run}
use capacity_agent.Pipe.Framing.{clients, all_messages, run-eq_all_messages}
use capacity_agent.Store.Json.{json_string}
use capacity_agent.Store.Json.RoundTrip.{read_json_string, read_json_string-json_string}

-- Two lines in three reads, and a rest without a newline.
abbrev chunks : List Text
chunks = codes "one\r\nt" ∷ codes "wo\n" ∷ codes "rest" ∷ []

run-eq_all_messages_example :
    run (clients (chunks ∷ chunks ∷ []))
    ≡ record { calls = all_messages (chunks ∷ chunks ∷ []); returned = some true }
run-eq_all_messages_example = run-eq_all_messages (chunks ∷ chunks ∷ []) (tt, (tt, tt))

read_json_string-json_string_example :
    read_json_string (json_string (codes "a\"b\\\n") ++ codes ",")
    ≡ some (codes "a\"b\\\n", codes ",")
read_json_string-json_string_example = read_json_string-json_string (codes "a\"b\\\n") (codes ",")
