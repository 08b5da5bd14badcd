-- ===== src/Pusher/Delivery.antt =====
-- What `PushOnce` of apps/host_agent/src/core/snapshot_pusher.cpp sends and where, for an address with a
-- port and a path.
use capacity_agent.Base.{
  ℕ, ◌≡◌, ◌↔◌, refl, Bool, true, false, ◌∷◌, Option, none, some, Text, inl, inr, Bool-cases,
  Option-cases, sym, ◌∙◌, ap, arith,
}
use capacity_agent.Base.Options.{is_some, some_inj}
use capacity_agent.Base.Int.{ℤ, pos, negsuc}
use capacity_agent.Store.Tables.{int_eq}
use capacity_agent.Pusher.{Url, parsed, slash, colon}
use capacity_agent.Pusher.Urls.{has, address, parse_url-address}
use capacity_agent.Pusher.Pushes.{Post, push_once, push_once_iff}
use capacity_agent.Collectors.Ollama.{Response, body_of}

-- A response came, with status 200 and this body.
abbrev pub Succeeds : Option Response → Text → Type 0
Succeeds o body = o ≡ some (record { status = pos 200; body = body })

status_iff : (z : ℤ) → (int_eq z (pos 200) ≡ true) ↔ (z ≡ pos 200)
unfolding int_eq
status_iff (pos n) = (λ h. ap pos (ground arith), λ h. cc)
status_iff (negsuc n) = (λ h. cc, λ h. cc)

body_of_iff : (o : Option Response) (body : Text) → (body_of o ≡ some body) ↔ Succeeds o body
body_of_iff none body = ground arith
body_of_iff (some r) body = elim (Bool-cases (int_eq r.status (pos 200))) [
  | inl e ↦
      let status = (status_iff r.status).0 e in
      rw e (
        λ h. (λ i. some (record { status = status i; body = some_inj h i })),
        λ h. ap (λ (x : Response). some x.body) (some_inj h),
      )
  | inr e ↦ rw e (
    λ h. cc,
    λ h. let status = (status_iff r.status).1 (ap (λ (x : Response). x.status) (some_inj h)) in cc,
  )
]

no_more : {P : Type 0} (b : Bool) → ((b ≡ true) ↔ P) → (P → true ≡ false) → false ≡ b
no_more true h none_of = cc (none_of (h.0 refl))
no_more false h none_of = refl

parsed_inj : {u v : Url} → parsed u ≡ parsed v → u ≡ v
parsed_inj e = cc

-- Whether a response succeeded, as a Boolean.
succeeded_iff :
    (o : Option Response) (b : Bool)
    → (is_some (body_of o) ≡ b) ↔ ((b ≡ true) ↔ ((body : Text) × Succeeds o body))
succeeded_iff o b = elim (Option-cases (body_of o)) [
  | inl e ↦
      let none_of : ((body : Text) × Succeeds o body) → true ≡ false =
        λ s. let found = (body_of_iff o s.0).1 s.1 in cc in
      rw e (λ h. (λ t. cc, λ s. cc (none_of s)), λ h. no_more b h none_of)
  | inr (body, e) ↦
      let found = (body_of_iff o body).0 e in
      rw e (λ h. (λ t. (body, found), λ s. sym h), λ h. sym (h.1 (body, found)))
]

module _ (stoi : Text → Option ℤ) (get : ℤ → Option Response) (post : Post → Option Response) where
  -- For an address "http://host:port/path" whose host is not empty and has no slash, and whose port has
  -- neither slash nor colon and is read by `stoi`: a push posts a request exactly if the local server answers
  -- with status 200 and the request's body, and the request goes to that host, that port and that path;
  -- and the push returns true exactly if that request is answered with status 200.
  pub push_once-address :
      (first : ℕ) (host digits path : Text) (port local : ℤ) (p : Post) (b : Bool)
      → has slash (first ∷ host) ≡ false
      → has slash digits ≡ false
      → has colon digits ≡ false
      → stoi digits ≡ some port
      → (push_once stoi get post (address first host digits path) local
          ≡ some (record { pushed = b; posted = some p }))
        ↔ (Succeeds (get local) p.body
            × (p.to ≡ record { host = first ∷ host; port = port; path = slash ∷ path })
            × ((b ≡ true) ↔ ((answer : Text) × Succeeds (post p) answer)))
  push_once-address first host digits path port local p b no_slash no_slash2 no_colon read =
      let pushes = push_once_iff stoi get post (address first host digits path) local p b in
      let url =
        parse_url-address stoi first host digits path port no_slash no_slash2 no_colon read in
      let got = body_of_iff (get local) p.body in
      let posted = succeeded_iff (post p) b in
      (
        λ h.
            let (body, to, answer) = pushes.0 h in
            (got.0 body, parsed_inj (sym to ∙ url), posted.0 answer),
        λ (body, to, answer). pushes.1 (got.1 body, url ∙ ap parsed (sym to), posted.1 answer),
      )
