-- ===== src/Examples/Addresses.antt =====
-- An address of the snapshot pusher.
use capacity_agent.Base.{
  ◌↔◌, ℕ, ◌≤◌, ◌≡◌, ◌≢◌, refl, true, false, Option, some, none, List, [], ◌∷◌, Text, codes, text_eq,
  if◌then◌else◌,
}
use capacity_agent.Base.Int.{ℤ, pos}
use capacity_agent.Pusher.{parse_url, parsed, exception, slash, colon}
use capacity_agent.Pusher.Loop.{Lap, Pushed, push_loop, Follows, push_loop-Follows}
use capacity_agent.Collectors.Ollama.Waits.{sum}
use capacity_agent.Pusher.Pushes.{Post, push_once}
use capacity_agent.Pusher.Delivery.{Succeeds, push_once-address}
use capacity_agent.Collectors.Ollama.{Response}
use capacity_agent.Pusher.Urls.{has, address, parse_url-address}

-- A reader of numbers that knows "8080".
abbrev read : Text → Option ℤ
read t = if text_eq t (codes "8080") then some (pos 8080) else none

host_no_slash : has slash (codes "hub") ≡ false
unfolding has
host_no_slash = refl

port_no_slash : has slash (codes "8080") ≡ false
unfolding has
port_no_slash = refl

port_no_colon : has colon (codes "8080") ≡ false
unfolding has
port_no_colon = refl

reads : read (codes "8080") ≡ some (pos 8080)
unfolding text_eq
reads = refl

parse_url-address_example :
    parse_url read (address 104 (codes "ub") (codes "8080") (codes "ingest"))
    ≡ parsed (record { host = codes "hub"; port = pos 8080; path = codes "/ingest" })
parse_url-address_example =
    parse_url-address read 104 (codes "ub") (codes "8080") (codes "ingest") (pos 8080) host_no_slash
      port_no_slash port_no_colon reads

-- A local server with a snapshot on port 80, and a hub that takes it.
abbrev local_server : ℤ → Option Response
local_server port = some (record { status = pos 200; body = codes "{}" })

abbrev hub : Post → Option Response
hub p = some (record { status = pos 200; body = [] })

abbrev pushed : Post
pushed = record {
  to = record { host = codes "hub"; port = pos 8080; path = codes "/ingest" };
  body = codes "{}";
}

push_once-address_example :
    (push_once read local_server hub
        (address 104 (codes "ub") (codes "8080") (codes "ingest"))
        (pos 80)
      ≡ some (record { pushed = true; posted = some pushed }))
    ↔ (Succeeds (local_server (pos 80)) pushed.body
        × (pushed.to ≡ record { host = codes "hub"; port = pos 8080; path = codes "/ingest" })
        × ((true ≡ true) ↔ ((answer : Text) × Succeeds (hub pushed) answer)))
push_once-address_example =
    push_once-address read local_server hub 104 (codes "ub") (codes "8080") (codes "ingest")
      (pos 8080) (pos 80) pushed true host_no_slash port_no_slash port_no_colon reads

pushes :
    push_once read local_server hub
      (address 104 (codes "ub") (codes "8080") (codes "ingest"))
      (pos 80)
    ≡ some (record { pushed = true; posted = some pushed })
pushes =
    (push_once-address read local_server hub 104 (codes "ub") (codes "8080") (codes "ingest")
        (pos 8080) (pos 80) pushed true host_no_slash port_no_slash port_no_colon reads).1
      (refl, refl, (λ t. ([], refl), λ s. refl))

readable : parse_url read (address 104 (codes "ub") (codes "8080") (codes "ingest")) ≢ exception
readable e =
    let reads_as =
      parse_url-address read 104 (codes "ub") (codes "8080") (codes "ingest") (pos 8080)
        host_no_slash port_no_slash port_no_colon reads in
    cc

-- A push that takes 20 ms.
abbrev lap : Lap
lap = record {
  running = true;
  get = local_server;
  post = hub;
  elapsed = 20000000;
  still = λ j. true;
}

push_loop-Follows_example :
    (slept : List ℕ) × (ps : List Pushed) × (push_loop read
        (address 104 (codes "ub") (codes "8080") (codes "ingest"))
        (pos 80)
        500000000
        (λ j. true)
        (lap ∷ lap ∷ [])
      ≡ some (slept, ps))
    × (sum slept ≤ 2000)
    × (((j : ℕ) → true ≡ true) → sum slept ≡ 2000)
    × Follows read
        (address 104 (codes "ub") (codes "8080") (codes "ingest"))
        (pos 80)
        500000000
        (lap ∷ lap ∷ [])
        ps
push_loop-Follows_example =
    push_loop-Follows read (address 104 (codes "ub") (codes "8080") (codes "ingest")) (pos 80)
      500000000 readable (λ j. true) (lap ∷ lap ∷ [])
