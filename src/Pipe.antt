-- ===== src/Pipe.antt =====
-- The named-pipe server: apps/host_agent/src/ipc/named_pipe_server_win32.cpp. The messages that the
-- handler is called with are a list, in order. What Windows answers is a list of events: the results
-- of `CreateNamedPipeW` and `ConnectNamedPipe` for each connection, and of `ReadFile` for each round of
-- the reading loop; `stopped` is a round at which `running_` was found to be false.
pub mod Framing
use capacity_agent.Base.{
  ℕ, zero, suc, ◌+◌, Bool, true, false, ◌==◌, Option, none, some, List, [], ◌∷◌, ◌++◌, Text, codes,
  take, drop, length, text_eq, if◌then◌else◌,
}

abbrev pub newline : ℕ
newline = 10

abbrev pub carriage_return : ℕ
carriage_return = 13

abbrev pub pipe_prefix : Text
pipe_prefix = codes "\\\\.\\pipe\\"

unfoldable pub build_full_pipe_name : Text → Text
build_full_pipe_name short_name =
    if text_eq (take (length pipe_prefix) short_name) pipe_prefix
    then short_name
    else pipe_prefix ++ short_name

-- `std::string::find` of one byte.
unfoldable pub find : ℕ → Text → Option ℕ
find c [] = none
find c (b ∷ text) =
    let later = find c text in
    if b == c then some 0 else (elim later [ none ↦ none | some k ↦ some (suc k) ])

-- `if (!line.empty() && line.back() == '\r') line.pop_back();`
unfoldable pub pop_carriage_return : Text → Text
pop_carriage_return [] = []
pop_carriage_return (c ∷ []) = if c == carriage_return then [] else c ∷ []
pop_carriage_return (c ∷ d ∷ text) = c ∷ pop_carriage_return (d ∷ text)

-- `if (!line.empty()) handler(line);` before the calls that follow.
abbrev pub handle : Text → List Text → List Text
handle [] calls = calls
handle (c ∷ line) calls = (c ∷ line) ∷ calls

pub record Dispatch : Type 0 where
  pub pending : Text
  pub handled : List Text

-- The loop of `DispatchCompleteLines`. Each round erases a newline from `pending`, so that one round
-- more than `pending` has bytes is enough (`Framing.dispatch_lines-cut`).
unfoldable pub dispatch_lines : ℕ → Text → Dispatch
dispatch_lines zero pending = record { pending = pending; handled = [] }
dispatch_lines (suc fuel) pending = elim (find newline pending) [
  | none ↦ record { pending = pending; handled = [] }
  | some k ↦
      let rest = dispatch_lines fuel (drop (k + 1) pending) in
      record {
        pending = rest.pending;
        handled = handle (pop_carriage_return (take k pending)) rest.handled;
      }
]

unfoldable pub dispatch_complete_lines : Text → Dispatch
dispatch_complete_lines pending = dispatch_lines (suc (length pending)) pending

-- One round of the reading loop: the bytes of a successful `ReadFile` (none if it read none), a
-- failed one, or a round that finds `running_` false.
pub data Event : Type 0 where
  read : Text → Event
  failed : Event
  stopped : Event

-- What is left when the connection ends is a message too.
unfoldable pub flush : Text → List Text
flush pending = handle (pop_carriage_return pending) []

pub record Session : Type 0 where
  pub calls : List Text
  pub running : Bool

-- The loop over one connection and the code behind it. A connection with no further event ends.
unfoldable pub serve : Text → List Event → Session
serve pending [] = record { calls = flush pending; running = true }
serve pending (stopped ∷ events) = record { calls = flush pending; running = false }
serve pending (failed ∷ events) = record { calls = flush pending; running = true }
serve pending (read [] ∷ events) = record { calls = flush pending; running = true }
serve pending (read (c ∷ chunk) ∷ events) =
    let d = dispatch_complete_lines (pending ++ (c ∷ chunk)) in
    let s = serve d.pending events in record { calls = d.handled ++ s.calls; running = s.running }

-- One round of the outer loop; `halted` is a round that finds `running_` false.
pub data Connection : Type 0 where
  halted : Connection
  create_failed : Connection
  not_connected : Connection
  connected : List Event → Connection

-- `Run` returns false if no pipe can be made, and true once it was stopped; `none` stands for a
-- server that is still running when the events end.
pub record Outcome : Type 0 where
  pub calls : List Text
  pub returned : Option Bool

unfoldable pub run : List Connection → Outcome
run [] = record { calls = []; returned = none }
run (halted ∷ connections) = record { calls = []; returned = some true }
run (create_failed ∷ connections) = record { calls = []; returned = some false }
run (not_connected ∷ connections) = run connections
run (connected events ∷ connections) =
    let s = serve [] events in
    let later = run connections in
    if s.running
    then record { calls = s.calls ++ later.calls; returned = later.returned }
    else record { calls = s.calls; returned = some true }
