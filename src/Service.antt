-- ===== src/Service.antt =====
-- `Service::HandlePipeMessage` of apps/host_agent/src/core/service.cpp (the `std::visit` is
-- `Store.Persist.persist`), and the messages of a pipe handled one after the other. What the source
-- writes to `std::cerr` is left out.
pub mod Lifecycle
pub mod Replay
pub mod Process
pub mod Ingest
use capacity_agent.Base.{ℕ, Bool, List, [], ◌∷◌, Text}
use capacity_agent.Base.Results.{error, ok}
use capacity_agent.Bridge.Parser.{CJson, parse_bridge_message}
use capacity_agent.Store.Connection.{Conn}
use capacity_agent.Store.Persist.{persist}

module _ {D : Type 0} (json : CJson D) (fails : ℕ → Bool) where
  unfoldable pub handle_pipe_message : Text → Conn D → Conn D
  handle_pipe_message message c = elim (parse_bridge_message json message) [
    | error e ↦ c
    | ok m ↦ (persist fails m c).1
  ]

  -- The handler is called on the pipe's thread, with one message after the other.
  unfoldable pub handle_all : List Text → Conn D → Conn D
  unfolding handle_pipe_message
  handle_all [] c = c
  handle_all (message ∷ messages) c = handle_all messages (handle_pipe_message message c)
