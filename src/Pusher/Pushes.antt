-- ===== src/Pusher/Pushes.antt =====
-- `PushOnce` of apps/host_agent/src/core/snapshot_pusher.cpp. What the two HTTP requests are answered with is
-- an argument, and a missing response is none.
use capacity_agent.Base.{◌≡◌, ◌≢◌, refl, ◌↔◌, Bool, true, false, Option, none, some, Text, arith}
use capacity_agent.Base.Options.{is_some}
use capacity_agent.Base.Int.{ℤ}
use capacity_agent.Pusher.{Url, ParsedUrl, rejected, exception, parsed, parse_url}
use capacity_agent.Collectors.Ollama.{Response, body_of}

-- A request that is posted: to whom, and with which body.
pub record Post : Type 0 where
  pub to : Url
  pub body : Text

-- The result of a push and the request that it posted, if any.
pub record Push : Type 0 where
  pub pushed : Bool
  pub posted : Option Post

module _ (stoi : Text → Option ℤ) (get : ℤ → Option Response) (post : Post → Option Response) where
  abbrev pub not_posted : Push
  not_posted = record { pushed = false; posted = none }

  -- What is answered to a request decides on the result.
  abbrev pub finish : Post → Option Text → Push
  finish request none = record { pushed = false; posted = some request }
  finish request (some answer) = record { pushed = true; posted = some request }

  abbrev pub post_snapshot : ParsedUrl → Text → Option Push
  post_snapshot rejected snap = some not_posted
  post_snapshot exception snap = none
  post_snapshot (parsed url) snap =
      let request : Post = record { to = url; body = snap } in
      some (finish request (body_of (post request)))

  abbrev pub push_snapshot : Text → Option Text → Option Push
  push_snapshot url none = some not_posted
  push_snapshot url (some snap) = post_snapshot (parse_url stoi url) snap

  -- Nothing where `stoi` throws an exception, which nobody catches.
  unfoldable pub push_once : Text → ℤ → Option Push
  unfolding parse_url
  push_once url port = push_snapshot url (body_of (get port))

  post_snapshot-returns :
      (u : ParsedUrl) (snap : Text)
      → u ≢ exception
      → (push : Push) × (post_snapshot u snap ≡ some push)
  post_snapshot-returns rejected snap h = (_, refl)
  post_snapshot-returns exception snap h = elim (h refl) [ ]
  post_snapshot-returns (parsed url) snap h = (_, refl)

  push_snapshot-returns :
      (url : Text) (o : Option Text)
      → parse_url stoi url ≢ exception
      → (push : Push) × (push_snapshot url o ≡ some push)
  push_snapshot-returns url none h = (_, refl)
  push_snapshot-returns url (some snap) h = post_snapshot-returns (parse_url stoi url) snap h

  -- Where the port of the address is a number or missing, a push returns.
  pub push_once-returns :
      (url : Text) (port : ℤ)
      → parse_url stoi url ≢ exception
      → (push : Push) × (push_once url port ≡ some push)
  unfolding push_once
  push_once-returns url port h = push_snapshot-returns url (body_of (get port)) h

  finish_iff :
      (request p : Post) (o : Option Text) (b : Bool)
      → (finish request o ≡ record { pushed = b; posted = some p })
        ↔ ((request ≡ p) × (is_some o ≡ b))
  finish_iff request p none b = ground arith
  finish_iff request p (some answer) b = ground arith

  post_snapshot_iff :
      (u : ParsedUrl) (snap : Text) (p : Post) (b : Bool)
      → (post_snapshot u snap ≡ some (record { pushed = b; posted = some p })) ↔ (
          (◌≡◌ {A = Option Text} (some snap) (some p.body))
          × (u ≡ parsed p.to)
          × (is_some (body_of (post p)) ≡ b))
  post_snapshot_iff rejected snap p b = ground arith
  post_snapshot_iff exception snap p b = ground arith
  post_snapshot_iff (parsed url) snap p b = ground arith

  push_snapshot_iff :
      (url : Text) (o : Option Text) (p : Post) (b : Bool)
      → (push_snapshot url o ≡ some (record { pushed = b; posted = some p })) ↔ (
          (o ≡ some p.body) × (parse_url stoi url ≡ parsed p.to) × (is_some (body_of (post p)) ≡ b))
  push_snapshot_iff url none p b = ground arith
  push_snapshot_iff url (some snap) p b = post_snapshot_iff (parse_url stoi url) snap p b

  pub push_once_iff :
      (url : Text) (port : ℤ) (p : Post) (b : Bool)
      → (push_once url port ≡ some (record { pushed = b; posted = some p })) ↔ (
          (body_of (get port) ≡ some p.body)
          × (parse_url stoi url ≡ parsed p.to)
          × (is_some (body_of (post p)) ≡ b))
  unfolding push_once
  push_once_iff url port p b = push_snapshot_iff url (body_of (get port)) p b
