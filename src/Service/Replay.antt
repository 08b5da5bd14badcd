-- ===== src/Service/Replay.antt =====
-- What the tables are after a sequence of messages.
use capacity_agent.Base.{ℕ, ◌≡◌, refl, ap, ◌∙◌, Bool, false, none, List, [], ◌∷◌, ◌++◌, Text}
use capacity_agent.Base.Results.{Result, error, ok}
use capacity_agent.Bridge.Messages.{BridgeMessage}
use capacity_agent.Bridge.Parser.{CJson, parse_bridge_message}
use capacity_agent.Store.Tables.{Db}
use capacity_agent.Store.Connection.{Conn}
use capacity_agent.Store.Atomic.{each}
use capacity_agent.Store.Transaction.{durable}
use capacity_agent.Store.Effects.{effect}
use capacity_agent.Store.Persist.{persist, persist-Atomic}
use capacity_agent.Store.Healthy.{persist-succeeds}
use capacity_agent.Store.Consistent.{Consistent, persist-Consistent}
use capacity_agent.Service.{handle_pipe_message, handle_all}

-- The messages that the parser accepts.
abbrev pub accept : {D : Type 0} → Result (BridgeMessage D) → List (BridgeMessage D)
accept (error e) = []
accept (ok m) = m ∷ []

unfoldable pub accepted : {D : Type 0} → CJson D → List Text → List (BridgeMessage D)
accepted json [] = []
accepted json (line ∷ lines) = accept (parse_bridge_message json line) ++ accepted json lines

-- A connection with no open transaction and these tables.
unfoldable pub Holding : {D : Type 0} → Db D → Conn D → Type 0
Holding db c = (c.saved ≡ none) × (c.db ≡ db)

each-append :
    {D : Type 0} (ms ns : List (BridgeMessage D)) (db : Db D)
    → each effect (ms ++ ns) db ≡ each effect ns (each effect ms db)
each-append [] ns db = refl
each-append (m ∷ ms) ns db = each-append ms ns (effect m db)

module _ {D : Type 0} (json : CJson D) (fails : ℕ → Bool) where
  handle-Consistent :
      (r : Result (BridgeMessage D)) (c : Conn D)
      → Consistent (durable c)
      → Consistent
          (durable (elim r as (λ _. Conn D) [ error e ↦ c | ok m ↦ (persist fails m c).1 ]))
  handle-Consistent (error e) c h = h
  handle-Consistent (ok m) c h = persist-Consistent fails m c h

  -- Whatever lines the pipe delivers, on a connection in any state, whatever cJSON makes of them and
  -- whichever calls of SQLite fail: if every sample that would survive has its sensor in the catalog,
  -- then that is so after the lines.
  pub handle_all-Consistent :
      (lines : List Text) (c : Conn D)
      → Consistent (durable c)
      → Consistent (durable (handle_all json fails lines c))
  unfolding handle_all handle_pipe_message
  handle_all-Consistent [] c h = h
  handle_all-Consistent (line ∷ lines) c h =
      handle_all-Consistent lines _ (handle-Consistent (parse_bridge_message json line) c h)

module _ {D : Type 0} (json : CJson D) (fails : ℕ → Bool)
    (healthy : (n : ℕ) → fails n ≡ false) where
  handle-Holding :
      (r : Result (BridgeMessage D)) (db : Db D) (c : Conn D)
      → Holding db c
      → Holding
          (each effect (accept r) db)
          (elim r as (λ _. Conn D) [ error e ↦ c | ok m ↦ (persist fails m c).1 ])
  unfolding Holding
  handle-Holding (error e) db c h = h
  handle-Holding (ok m) db c h =
      let (e, b) = (persist-Atomic fails m c h.0).all (persist-succeeds fails healthy m c h.0) in
      (b, e ∙ ap (effect m) h.1)

  -- If no call of SQLite fails, then after any lines the tables are those that the effects of the
  -- accepted messages make of the tables before, in the order of the lines, and no transaction is open.
  pub handle_all-eq_effects :
      (lines : List Text) (db : Db D) (c : Conn D)
      → Holding db c
      → Holding (each effect (accepted json lines) db) (handle_all json fails lines c)
  unfolding handle_all handle_pipe_message accepted
  handle_all-eq_effects [] db c h = h
  handle_all-eq_effects (line ∷ lines) db c h =
      rw (each-append (accept (parse_bridge_message json line)) (accepted json lines) db)
        (handle_all-eq_effects lines _ _ (handle-Holding (parse_bridge_message json line) db c h))
