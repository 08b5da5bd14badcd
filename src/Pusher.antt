-- ===== src/Pusher.antt =====
-- `ParseUrl` of apps/host_agent/src/core/snapshot_pusher.cpp. `stoi` is the standard library's, with none
-- for an exception.
pub mod Pushes
pub mod Delivery
pub mod Loop
pub mod Urls
use capacity_agent.Base.{
  ℕ, suc, ◌+◌, Bool, true, false, ◌==◌, Option, none, some, List, [], ◌∷◌, ◌++◌, Text, codes,
  text_eq, take, drop, length, if◌then◌else◌,
}
use capacity_agent.Base.Int.{ℤ, pos}
use capacity_agent.Pipe.{find}

-- `std::string::find` of a text.
unfoldable pub find_text : Text → Text → Option ℕ
find_text needle [] = none
find_text needle (c ∷ text) =
    let later = find_text needle text in
    if text_eq (take (length needle) (c ∷ text)) needle
    then some 0
    else (elim later [ none ↦ none | some k ↦ some (suc k) ])

-- `std::string::rfind` of one byte.
unfoldable pub rfind : ℕ → Text → Option ℕ
rfind c [] = none
rfind c (b ∷ text) = elim (rfind c text) [
  | none ↦ if b == c then some 0 else none
  | some k ↦ some (suc k)
]

pub record Url : Type 0 where
  pub host : Text
  pub port : ℤ
  pub path : Text

-- False, an exception of `stoi`, or the parts.
pub data ParsedUrl : Type 0 where
  rejected : ParsedUrl
  exception : ParsedUrl
  parsed : Url → ParsedUrl

abbrev pub slash : ℕ
slash = 47

abbrev pub colon : ℕ
colon = 58

abbrev pub default_path : Text
default_path = codes "/api/ingest/snapshot"

-- `return !host.empty();`
abbrev pub accept : Text → ℤ → Text → ParsedUrl
accept [] port path = rejected
accept (c ∷ host) port path = parsed (record { host = c ∷ host; port = port; path = path })

module _ (stoi : Text → Option ℤ) where
  unfoldable pub parse_authority : Bool → Text → Text → ParsedUrl
  unfolding rfind
  parse_authority is_https authority path = elim (rfind colon authority) [
    | none ↦ accept authority (if is_https then pos 443 else pos 80) path
    | some k ↦ (elim (stoi (drop (k + 1) authority)) [
      | none ↦ exception
      | some port ↦ accept (take k authority) port path
    ])
  ]

  unfoldable pub parse_rest : Bool → Text → ParsedUrl
  unfolding parse_authority find
  parse_rest is_https rest = elim (find slash rest) [
    | none ↦ parse_authority is_https rest default_path
    | some k ↦ parse_authority is_https (take k rest) (drop k rest)
  ]

  unfoldable pub parse_url : Text → ParsedUrl
  unfolding parse_rest find_text
  parse_url url = elim (find_text (codes "://") url) [
    | none ↦ parse_rest false url
    | some k ↦ parse_rest (text_eq (take k url) (codes "https")) (drop (k + 3) url)
  ]
