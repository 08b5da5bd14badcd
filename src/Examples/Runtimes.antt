-- ===== src/Examples/Runtimes.antt =====
-- Polls of a runtime.
use capacity_agent.Base.{
  ℕ, ◌≡◌, refl, Bool, true, false, ◌==◌, Option, none, some, List, [], ◌∷◌, Text, codes, text_eq,
  if◌then◌else◌, arith,
}
use capacity_agent.Base.Int.{ℤ, pos, ◌+ℤ◌, ◌-ℤ◌}
use capacity_agent.Store.Connection.{Conn}
use capacity_agent.Collectors.Ollama.{
  OllamaJson, Response, accepted, parse_host_port, poll_once, sleep_chunks, totals_of,
}
use capacity_agent.Collectors.Ollama.Polls.{HasPolled, poll_once-HasPolled}
use capacity_agent.Collectors.Ollama.Waits.{IsWait, sleep_chunks-IsWait}
use capacity_agent.Examples.Tables.{closed}

-- Documents that are numbers, or a node 0 with the models 1 and 2, each 1000 bytes, 600 on the GPU.
abbrev documents : OllamaJson
documents = record {
  Node = ℕ;
  parse = λ (t : Text). some 0;
  get_object_item = λ (n : ℕ) (name : Text).
      if text_eq name (codes "size_vram")
      then some 600
      else (if text_eq name (codes "size") then some 1000 else some 0);
  is_array = λ (n : ℕ). n == 0;
  is_number = λ (n : ℕ). true;
  valueint64 = λ (n : ℕ). pos n;
  get_array_size = λ (n : ℕ). 2;
  children = λ (n : ℕ). 1 ∷ 2 ∷ [];
}

two_models :
    totals_of documents (some 0) ≡ record { models = pos 2; vram = pos 1200; ram = pos 800 }
unfolding totals_of text_eq ◌+ℤ◌ ◌-ℤ◌
two_models = refl

abbrev address_text : Text
address_text = codes "http://localhost/"

abbrev no_stoi : Text → Option ℤ
no_stoi t = none

abbrev answers : Text → ℤ → Option Response
answers host port = some (record { status = pos 200; body = codes "{}" })

abbrev fails_never : ℕ → Bool
fails_never n = false

address_read : parse_host_port no_stoi address_text ≡ accepted (codes "localhost") (pos 11434)
unfolding parse_host_port text_eq
address_read = refl

poll_once-HasPolled_example :
    (r : Bool × Conn ℕ) × (poll_once documents fails_never
        (codes "pc")
        address_text
        (pos 7)
        no_stoi
        answers
        closed
      ≡ some r)
    × HasPolled documents fails_never
        (λ (n : ℕ). refl)
        (codes "pc")
        address_text
        (pos 7)
        (answers (codes "localhost") (pos 11434))
        closed.db
        r
poll_once-HasPolled_example =
    poll_once-HasPolled documents fails_never (λ (n : ℕ). refl) (codes "pc") address_text (pos 7)
      no_stoi answers (codes "localhost") (pos 11434) closed address_read

abbrev cleared_at_two : ℕ → Bool
cleared_at_two k = if k == 2 then false else true

sleep_chunks-IsWait_example :
    (chunks : List ℕ) × (sleep_chunks 1001 cleared_at_two 0 1000 ≡ some chunks)
    × IsWait cleared_at_two 0 1000 chunks
sleep_chunks-IsWait_example = sleep_chunks-IsWait 1001 cleared_at_two 0 1000 (omega arith)
