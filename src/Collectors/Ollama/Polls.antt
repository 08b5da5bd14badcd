-- ===== src/Collectors/Ollama/Polls.antt =====
-- What a poll of the runtime stores.
use capacity_agent.Base.{
  ℕ, ◌≡◌, refl, ap, ◌∙◌, ◌⊎◌, inl, inr, Bool, true, false, Option, none, some, Text, codes,
}
use capacity_agent.Base.Int.{ℤ}
use capacity_agent.Store.Tables.{OllamaRow, Db}
use capacity_agent.Store.Connection.{Conn}
use capacity_agent.Store.Writes.{insert_ollama_runtime_sample}
use capacity_agent.Store.Bindings.{OllamaSample}
use capacity_agent.Store.Effects.{put_collector}
use capacity_agent.Store.Healthy.{Sure, both-Sure, run_statement-Sure, opens}
use capacity_agent.Store.Direct.{report}
use capacity_agent.Store.RuntimeSamples.{
  row_of_ollama, put_ollama, insert_ollama_runtime_sample-Single,
}
use capacity_agent.Collectors.Reports.{db-report}
use capacity_agent.Collectors.Ollama.{
  OllamaJson, Response, HostPort, accepted, Totals, totals_of, sample_of, error_of, body_of,
  positive, vram_of, parse_host_port, poll_json, poll_body, poll_at, poll_once, store_totals,
}
use capacity_agent.Collectors.Ollama.Sums.{sum_by, spare_of, models_of, count_of, totals_of-sums}

module _ (json : OllamaJson) (machine_id base_url : Text) (now : ℤ) where
  -- The row of a poll: how many models an answer has, and the sums of their memory, NULL for one that is not
  -- positive.
  abbrev pub polled_row : Option json.Node → OllamaRow
  polled_row o = record {
    machine_id = machine_id;
    ts_utc_ms = now;
    base_url = base_url;
    active_request_count = none;
    queued_request_count = none;
    loaded_model_count = some (count_of json o);
    resident_vram_bytes = positive (sum_by (vram_of json) (models_of json o));
    resident_ram_bytes = positive (sum_by (spare_of json) (models_of json o));
  }

module _ (json : OllamaJson) {D : Type 0} (fails : ℕ → Bool) (healthy : (n : ℕ) → fails n ≡ false)
    (machine_id base_url : Text) (now : ℤ) where
  -- The row by which the poller reports its state.
  abbrev pub reported : Text → Option Text → Db D → Db D
  reported status last_error =
      put_collector
        (report machine_id (codes "ollama") (codes "ollama_poller") status now last_error)

  insert-Sure : (o : OllamaSample) → Sure {D = D} (insert_ollama_runtime_sample fails o)
  unfolding insert_ollama_runtime_sample
  insert-Sure o =
      both-Sure _ _ (record { succeeds = λ c. (opens fails healthy c).0 })
        (run_statement-Sure fails healthy _ _)

  db-store_totals :
      (t : Totals) (c : Conn D)
      → (store_totals json fails machine_id base_url now t c).db
        ≡ reported
            (codes "ok")
            none
            (put_ollama (row_of_ollama (sample_of machine_id base_url now t)) c.db)
  db-store_totals t c =
      let o = sample_of machine_id base_url now t in
      db-report fails healthy machine_id (codes "ollama") (codes "ollama_poller") (codes "ok") now
        none (insert_ollama_runtime_sample fails o c).1
      ∙ ap (reported (codes "ok") none)
          ((insert_ollama_runtime_sample-Single fails o).done c ((insert-Sure o).succeeds c))

  db-store_polled :
      (o : Option json.Node) (c : Conn D)
      → (store_totals json fails machine_id base_url now (totals_of json o) c).db
        ≡ reported (codes "ok") none (put_ollama (polled_row json machine_id base_url now o) c.db)
  db-store_polled o c =
      db-store_totals (totals_of json o) c
      ∙ ap
          (λ (t : Totals).
            reported (codes "ok") none
              (put_ollama (row_of_ollama (sample_of machine_id base_url now t)) c.db))
          (totals_of-sums json o)

  -- What a poll returns and leaves in the tables `db`, by what the request is answered with: no response, or
  -- one with a status other than 200; a body that is no JSON; or one that is.
  abbrev pub HasPolled : Option Response → Db D → Bool × Conn D → Type 0
  HasPolled response db r =
      ((body_of response ≡ none)
        × (r.0 ≡ false)
        × ((r.1).db ≡ reported (codes "unreachable") (some (error_of response)) db))
      ⊎ (((body : Text) × (body_of response ≡ some body)
            × (json.parse body ≡ none)
            × (r.0 ≡ false)
            × ((r.1).db ≡ reported (codes "error") (some (codes "invalid JSON")) db))
          ⊎ ((body : Text) × (root : json.Node) × (body_of response ≡ some body)
              × (json.parse body ≡ some root)
              × (r.0 ≡ true)
              × ((r.1).db
                  ≡ reported (codes "ok") none (
                      put_ollama
                        (polled_row json machine_id base_url now
                          (json.get_object_item root (codes "models")))
                        db))))

  poll_json-HasPolled :
      (response : Option Response) (body : Text) (c : Conn D) (o : Option json.Node)
      → body_of response ≡ some body
      → json.parse body ≡ o
      → HasPolled response c.db (poll_json json fails machine_id base_url now o c)
  poll_json-HasPolled response body c none e f = inr (
      inl (
        body,
        e,
        f,
        refl,
        db-report fails healthy machine_id (codes "ollama") (codes "ollama_poller") (codes "error")
            now (some (codes "invalid JSON")) c,
      ))
  poll_json-HasPolled response body c (some root) e f =
      inr (
        inr
          (body, root, e, f, refl, db-store_polled (json.get_object_item root (codes "models")) c))

  poll_body-HasPolled :
      (response : Option Response) (c : Conn D) (o : Option Text)
      → body_of response ≡ o
      → HasPolled response c.db (poll_body json fails machine_id base_url now response o c)
  poll_body-HasPolled response c none e = inl (
    e,
    refl,
    db-report fails healthy machine_id (codes "ollama") (codes "ollama_poller")
        (codes "unreachable") now (some (error_of response)) c,
  )
  poll_body-HasPolled response c (some body) e =
      poll_json-HasPolled response body c (json.parse body) e refl

  -- If no call of SQLite fails and the address is read as a host and a port: a poll whose request is not
  -- answered, or not with 200, returns false and stores only that the runtime is unreachable, with the
  -- reason; one whose body is no JSON returns false and stores only that; and any other returns true and
  -- stores how many models it lists and the sums of their memory on the GPU and of the rest of their sizes, a
  -- sum that is not positive as NULL, and then that the collector is well, both with the same time.
  pub poll_once-HasPolled :
      (stoi : Text → Option ℤ) (get : Text → ℤ → Option Response) (host : Text) (port : ℤ)
      (c : Conn D)
      → parse_host_port stoi base_url ≡ accepted host port
      → (r : Bool × Conn D) × (poll_once json fails machine_id base_url now stoi get c ≡ some r)
        × HasPolled (get host port) c.db r
  unfolding poll_once
  poll_once-HasPolled stoi get host port c e = (
    poll_body json fails machine_id base_url now (get host port) (body_of (get host port)) c,
    ap (λ (h : HostPort). poll_at json fails machine_id base_url now h get c) e,
    poll_body-HasPolled (get host port) c (body_of (get host port)) refl,
  )
