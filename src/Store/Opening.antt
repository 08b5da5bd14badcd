-- ===== src/Store/Opening.antt =====
-- `EnsureSchema`, `ReadTextFile` and `Close` of apps/host_agent/src/storage/sqlite_store.cpp. The tables of
-- sql/schema.sql are there from the start, and its statements are all of the kind IF NOT EXISTS.
use capacity_agent.Base.{
  ◌≡◌, ℕ, Bool, true, false, ◌&&◌, Option, none, some, [], ◌∷◌, Text, if◌then◌else◌, arith,
}
use capacity_agent.Store.Connection.{Conn, Action, both, call, open_if_needed}
use capacity_agent.Store.Transaction.{durable}

-- What a file holds, or the empty text where it cannot be read.
abbrev pub read_text_file : Option Text → Text
read_text_file none = []
read_text_file (some text) = text

abbrev has_text : Text → Bool
has_text [] = false
has_text (c ∷ text) = true

module _ {D : Type 0} where
  -- Whether the schema's file exists, and what reading it gives.
  unfoldable pub ensure_schema : (ℕ → Bool) → Bool → Option Text → Action D
  unfolding both call open_if_needed
  ensure_schema fails exists content =
      both (open_if_needed fails)
        (λ c. if exists && has_text (read_text_file content) then call fails c else (false, c))

  -- `Close`: SQLite gives up the transaction that is open.
  unfoldable pub close : Conn D → Conn D
  close c = if c.is_open then record c { is_open = false; db = durable c; saved = none } else c

  ensure_schema-keeps :
      (fails : ℕ → Bool) (exists : Bool) (content : Option Text) (c : Conn D)
      → ((ensure_schema fails exists content c).1.db ≡ c.db)
        × ((ensure_schema fails exists content c).1.saved ≡ c.saved)
  unfolding ensure_schema both call open_if_needed
  ensure_schema-keeps fails exists content c = ground arith

  durable-close : (c : Conn D) → durable (close c) ≡ durable c
  unfolding close
  durable-close c = ground arith
