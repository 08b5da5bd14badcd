-- ===== src/Bridge/Parser/Accepts.antt =====
-- Which lines and arrays apps/host_agent/src/core/bridge_message_parser.cpp accepts.
use mathlib.Core.Path.{subst}
use capacity_agent.Base.{
  ℕ, zero, suc, ◌^◌, ◌≡◌, refl, sym, ap, ◌∙◌, ◌↔◌, ◌⊎◌, inl, inr, Bool-cases, Option, none, some,
  List, [], ◌∷◌, Text, codes, text_eq, text_eq_iff, length, if◌then◌else◌,
}
use capacity_agent.Base.Int.{ℤ}
use capacity_agent.Base.Range.{Within}
use capacity_agent.Base.Results.{Result, error, ok, ◌>>=◌, >>=-eq-ok, ok_inj}
use capacity_agent.Bridge.Messages.{
  MessageEnvelope, BridgeMessage, hello, catalog_snapshot, sample_batch, heartbeat,
}
use capacity_agent.Bridge.Timestamp.{parse_iso8601_utc_ms}
use capacity_agent.Bridge.Timestamp.Bounds.{parse_iso8601-Within}
use capacity_agent.Bridge.Parser.{
  CJson, get_object, parse_items, get_timestamp, get_required_string, get_required_int,
  get_required_int64, get_required_array, parse_sensor, parse_sample, parse_envelope, parse_hello,
  parse_catalog_snapshot, parse_sample_batch, parse_heartbeat, parse_typed, parse_bridge_message,
}

module _ {D : Type 0} (json : CJson D) {A : Type 0} (parse_item : json.Node → Result A)
    (message : Text) where
  -- What the loop does with the item at one index.
  pub item_at : json.Node → ℕ → Result A
  item_at array i = get_object json array i message >>= parse_item

  -- The items from an index on are parsed to these values, one each.
  pub data Items (array : json.Node) : ℕ → List A → Type 0 where
    end : {i : ℕ} → Items array i []
    item :
        {i : ℕ} {a : A} {as' : List A}
        → item_at array i ≡ ok a
        → Items array (suc i) as'
        → Items array i (a ∷ as')

  pub Parsed : json.Node → ℕ → ℕ → List A → Type 0
  Parsed array n i as' = (length as' ≡ n) × Items array i as'

  parsed :
      (array : json.Node) (n i : ℕ) (as' : List A)
      → parse_items json parse_item message array n i ≡ ok as'
      → Parsed array n i as'
  unfolding parse_items item_at Parsed
  parsed array zero i [] h = (refl, end)
  parsed array zero i (a ∷ as') h = cc
  parsed array (suc n) i as' h =
      let (x, e, h1) = >>=-eq-ok (get_object json array i message) _ h in
      let (a, e1, h2) = >>=-eq-ok (parse_item x) _ h1 in
      let (rest, e2, h3) = >>=-eq-ok (parse_items json parse_item message array n (suc i)) _ h2 in
      let (l, is) = parsed array n (suc i) rest e2 in
      rw (sym (ok_inj h3)) (ap suc l, item (rw e e1) is)

  items :
      (array : json.Node) (i : ℕ) (as' : List A)
      → Items array i as'
      → parse_items json parse_item message array (length as') i ≡ ok as'
  unfolding parse_items item_at
  items array i [] is = refl
  items array i (a ∷ as') (item e is) =
      let (x, ex, ea) = >>=-eq-ok (get_object json array i message) _ e in
      rw (ex, ea, items array (suc i) as' is)

  -- The loop over an array accepts it if and only if it accepts each of its items, an object that the
  -- body parses, and then its result has the value of each item, in order.
  parse_items_iff :
      (array : json.Node) (n i : ℕ) (as' : List A)
      → (parse_items json parse_item message array n i ≡ ok as') ↔ Parsed array n i as'
  unfolding Parsed
  parse_items_iff array n i as' =
      (parsed array n i as', λ (l, is). rw (sym l) (items array i as' is))

ok_is_some :
    (o : Option ℤ) (message : Text) (ms : ℤ)
    → elim o as (λ _. Result ℤ) [ none ↦ error message | some z ↦ ok z ] ≡ ok ms
    → o ≡ some ms
ok_is_some none message ms h = cc
ok_is_some (some z) message ms h = cc

pub timestamp-Within :
    (text message : Text) (ms : ℤ) → get_timestamp text message ≡ ok ms → Within (2 ^ 53) ms
unfolding get_timestamp
timestamp-Within text message ms h =
    parse_iso8601-Within text ms (ok_is_some (parse_iso8601_utc_ms text) message ms h)

abbrev pub envelope_of : {D : Type 0} → BridgeMessage D → MessageEnvelope
envelope_of (hello m) = m.envelope
envelope_of (catalog_snapshot m) = m.envelope
envelope_of (sample_batch m) = m.envelope
envelope_of (heartbeat m) = m.envelope

-- The `type` that docs/ipc-contract.md gives a message.
abbrev pub type_of : {D : Type 0} → BridgeMessage D → Text
type_of (hello m) = codes "hello"
type_of (catalog_snapshot m) = codes "catalog_snapshot"
type_of (sample_batch m) = codes "sample_batch"
type_of (heartbeat m) = codes "heartbeat"

module _ {D : Type 0} (json : CJson D) where
  IsOf : Text → json.Node → BridgeMessage D → Type 0
  IsOf type root m = (type_of m ≡ type) × (parse_envelope json root ≡ ok (envelope_of m))

  hello-IsOf :
      (root : json.Node) (m : BridgeMessage D)
      → parse_hello json root ≡ ok m
      → IsOf (codes "hello") root m
  unfolding parse_hello IsOf
  hello-IsOf root m h =
      let (e, he, h1) = >>=-eq-ok (parse_envelope json root) _ h in
      let (v, _, h2) = >>=-eq-ok (get_required_string json root (codes "bridge_version")) _ h1 in
      let (n, _, h3) = >>=-eq-ok (get_required_string json root (codes "hostname")) _ h2 in
      let (p, _, h4) = >>=-eq-ok (get_required_int json root (codes "pid")) _ h3 in
      let (i, _, h5) = >>=-eq-ok (get_required_int json root (codes "sample_interval_ms")) _ h4 in
      subst (IsOf (codes "hello") root) (ok_inj h5) (refl, he)

  catalog_snapshot-IsOf :
      (root : json.Node) (m : BridgeMessage D)
      → parse_catalog_snapshot json root ≡ ok m
      → IsOf (codes "catalog_snapshot") root m
  unfolding parse_catalog_snapshot IsOf
  catalog_snapshot-IsOf root m h =
      let (e, he, h1) = >>=-eq-ok (parse_envelope json root) _ h in
      let (a, _, h2) = >>=-eq-ok (get_required_array json root (codes "sensors")) _ h1 in
      let (xs, _, h3) =
        >>=-eq-ok
          (parse_items json (parse_sensor json) (codes "Invalid sensor entry in catalog_snapshot") a
            (json.get_array_size a) 0)
          _ h2 in
      subst (IsOf (codes "catalog_snapshot") root) (ok_inj h3) (refl, he)

  sample_batch-IsOf :
      (root : json.Node) (m : BridgeMessage D)
      → parse_sample_batch json root ≡ ok m
      → IsOf (codes "sample_batch") root m
  unfolding parse_sample_batch IsOf
  sample_batch-IsOf root m h =
      let (e, he, h1) = >>=-eq-ok (parse_envelope json root) _ h in
      let (t, _, h2) = >>=-eq-ok (get_required_string json root (codes "sample_time_utc")) _ h1 in
      let (ms, _, h3) =
        >>=-eq-ok (get_timestamp t (codes "Invalid sample_time_utc timestamp")) _ h2 in
      let (a, _, h4) = >>=-eq-ok (get_required_array json root (codes "samples")) _ h3 in
      let (xs, _, h5) =
        >>=-eq-ok
          (parse_items json (parse_sample json) (codes "Invalid sample entry in sample_batch") a
            (json.get_array_size a) 0)
          _ h4 in
      subst (IsOf (codes "sample_batch") root) (ok_inj h5) (refl, he)

  heartbeat-IsOf :
      (root : json.Node) (m : BridgeMessage D)
      → parse_heartbeat json root ≡ ok m
      → IsOf (codes "heartbeat") root m
  unfolding parse_heartbeat IsOf
  heartbeat-IsOf root m h =
      let (e, he, h1) = >>=-eq-ok (parse_envelope json root) _ h in
      let (st, _, h2) = >>=-eq-ok (get_required_string json root (codes "status")) _ h1 in
      let (up, _, h3) = >>=-eq-ok (get_required_int64 json root (codes "uptime_s")) _ h2 in
      let (c, _, h4) = >>=-eq-ok (get_required_int json root (codes "catalog_count")) _ h3 in
      subst (IsOf (codes "heartbeat") root) (ok_inj h4) (refl, he)

  branch :
      (type key : Text) (a b : Result (BridgeMessage D)) (m : BridgeMessage D)
      → (if text_eq type key then a else b) ≡ ok m
      → ((key ≡ type) × (a ≡ ok m)) ⊎ (b ≡ ok m)
  branch type key a b m h = elim (Bool-cases (text_eq type key)) [
    | inl t ↦ inl (sym ((text_eq_iff type key).0 t), rw t at h)
    | inr f ↦ inr (rw f at h)
  ]

  typed-IsOf :
      (root : json.Node) (type : Text) (m : BridgeMessage D)
      → parse_typed json root type ≡ ok m
      → IsOf type root m
  unfolding parse_typed
  typed-IsOf root type m h = elim (branch type (codes "hello") _ _ m h) [
    | inl (e, h1) ↦ subst (λ t. IsOf t root m) e (hello-IsOf root m h1)
    | inr n1 ↦ elim (branch type (codes "catalog_snapshot") _ _ m n1) [
      | inl (e, h1) ↦ subst (λ t. IsOf t root m) e (catalog_snapshot-IsOf root m h1)
      | inr n2 ↦ elim (branch type (codes "sample_batch") _ _ m n2) [
        | inl (e, h1) ↦ subst (λ t. IsOf t root m) e (sample_batch-IsOf root m h1)
        | inr n3 ↦ elim (branch type (codes "heartbeat") _ _ m n3) [
          | inl (e, h1) ↦ subst (λ t. IsOf t root m) e (heartbeat-IsOf root m h1)
          | inr n4 ↦ cc
        ]
      ]
    ]
  ]

  envelope-Within :
      (root : json.Node) (e : MessageEnvelope)
      → parse_envelope json root ≡ ok e
      → Within (2 ^ 53) e.sent_at_utc_ms
  unfolding parse_envelope get_timestamp
  envelope-Within root e h =
      let (v, _, h1) = >>=-eq-ok (get_required_int json root (codes "schema_version")) _ h in
      let (s, _, h2) = >>=-eq-ok (get_required_string json root (codes "source")) _ h1 in
      let (i, _, h3) = >>=-eq-ok (get_required_string json root (codes "machine_id")) _ h2 in
      let (t, _, h4) = >>=-eq-ok (get_required_string json root (codes "sent_at_utc")) _ h3 in
      let (ms, hm, h5) = >>=-eq-ok (get_timestamp t (codes "Invalid sent_at_utc timestamp")) _ h4 in
      subst (λ x. Within (2 ^ 53) x.sent_at_utc_ms) (ok_inj h5) (timestamp-Within t _ ms hm)

  -- The fields of an envelope, as docs/ipc-contract.md names them.
  pub record HasEnvelope (root : json.Node) (e : MessageEnvelope) : Type 0 where
    pub schema_version : get_required_int json root (codes "schema_version") ≡ ok e.schema_version
    pub source : get_required_string json root (codes "source") ≡ ok e.source
    pub machine_id : get_required_string json root (codes "machine_id") ≡ ok e.machine_id
    pub sent_at_utc : Text
    pub sent_at : get_required_string json root (codes "sent_at_utc") ≡ ok sent_at_utc
    pub sent_at_ms : parse_iso8601_utc_ms sent_at_utc ≡ some e.sent_at_utc_ms

  envelope-HasEnvelope :
      (root : json.Node) (e : MessageEnvelope)
      → parse_envelope json root ≡ ok e
      → HasEnvelope root e
  unfolding parse_envelope get_timestamp
  envelope-HasEnvelope root e h =
      let (v, hv, h1) = >>=-eq-ok (get_required_int json root (codes "schema_version")) _ h in
      let (s, hs, h2) = >>=-eq-ok (get_required_string json root (codes "source")) _ h1 in
      let (i, hi, h3) = >>=-eq-ok (get_required_string json root (codes "machine_id")) _ h2 in
      let (t, ht, h4) = >>=-eq-ok (get_required_string json root (codes "sent_at_utc")) _ h3 in
      let (ms, hm, h5) = >>=-eq-ok (get_timestamp t (codes "Invalid sent_at_utc timestamp")) _ h4 in
      subst (HasEnvelope root) (ok_inj h5) record {
        schema_version = hv;
        source = hs;
        machine_id = hi;
        sent_at_utc = t;
        sent_at = ht;
        sent_at_ms = ok_is_some (parse_iso8601_utc_ms t) _ ms hm;
      }

  -- What a message that was accepted has to do with the text it was parsed from.
  pub record Accepted (line : Text) (m : BridgeMessage D) : Type 0 where
    pub root : json.Node
    pub is_json : json.parse line ≡ some root
    pub has_type : get_required_string json root (codes "type") ≡ ok (type_of m)
    pub has_envelope : HasEnvelope root (envelope_of m)
    pub in_bounds : Within (2 ^ 53) (envelope_of m).sent_at_utc_ms

  root_of :
      (o : Option json.Node) (k : json.Node → Result (BridgeMessage D)) (e : Text)
      (m : BridgeMessage D)
      → elim o as (λ _. Result (BridgeMessage D)) [ none ↦ error e | some root ↦ k root ] ≡ ok m
      → (root : json.Node) × (o ≡ some root) × (k root ≡ ok m)
  root_of none k e m h = cc
  root_of (some root) k e m h = (root, refl, h)

  -- If a line is accepted, then it is JSON whose `type` is the one of the message returned; the fields
  -- schema_version, source and machine_id of the JSON are those of the message's envelope, the field
  -- sent_at_utc is read as its time of sending, and that time is at most 2 ^ 53 ms from 1970.
  pub parse_bridge_message-Accepted :
      (line : Text) (m : BridgeMessage D) → parse_bridge_message json line ≡ ok m → Accepted line m
  unfolding parse_bridge_message IsOf
  parse_bridge_message-Accepted line m h =
      let (root, e, h1) = root_of (json.parse line) _ _ m h in
      let (type, e1, h2) = >>=-eq-ok (get_required_string json root (codes "type")) _ h1 in
      let (t, env) = typed-IsOf root type m h2 in
      record {
        root = root;
        is_json = e;
        has_type = e1 ∙ ap ok (sym t);
        has_envelope = envelope-HasEnvelope root (envelope_of m) env;
        in_bounds = envelope-Within root (envelope_of m) env;
      }
