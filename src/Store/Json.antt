-- ===== src/Store/Json.antt =====
-- The JSON texts that apps/host_agent/src/storage/sqlite_store.cpp builds by hand: `JsonEscape` and
-- the `Build...ExtraJson` functions. Texts are bytes below 256.
pub mod RoundTrip
pub mod Digits
use capacity_agent.Base.{
  ℕ, zero, suc, ◌+◌, ◌-◌, ◌/◌, ◌%◌, ltb, ◌==◌, [], ◌∷◌, ◌++◌, Text, codes, if◌then◌else◌,
}
use capacity_agent.Base.Int.{ℤ, pos, negsuc}
use capacity_agent.Bridge.Messages.{HelloMessage, HeartbeatMessage}

-- A digit of "%04x".
unfoldable pub hex_digit : ℕ → ℕ
hex_digit n = if ltb n 10 then b'0' + n else b'a' + (n - 10)

abbrev pub backslash : ℕ
backslash = 92

abbrev pub quote : ℕ
quote = 34

-- What `JsonEscape` appends for one byte; a control character is printed by "\\u%04x".
unfoldable pub escape_byte : ℕ → Text
unfolding hex_digit
escape_byte ch =
    if ch == quote
    then backslash ∷ quote ∷ []
    else if ch == backslash
    then backslash ∷ backslash ∷ []
    else if ch == 8
    then backslash ∷ b'b' ∷ []
    else if ch == 12
    then backslash ∷ b'f' ∷ []
    else if ch == 10
    then backslash ∷ b'n' ∷ []
    else if ch == 13
    then backslash ∷ b'r' ∷ []
    else if ch == 9
    then backslash ∷ b't' ∷ []
    else if ltb ch 32
    then backslash ∷ b'u' ∷ b'0' ∷ b'0' ∷ hex_digit (ch / 16) ∷ hex_digit (ch % 16) ∷ []
    else ch ∷ []

unfoldable pub json_escape : Text → Text
json_escape [] = []
json_escape (ch ∷ text) = escape_byte ch ++ json_escape text

unfoldable pub json_string : Text → Text
json_string text = quote ∷ json_escape text ++ quote ∷ []

-- The decimal digits of a number, by at most `fuel` divisions.
unfoldable pub decimal : ℕ → ℕ → Text
decimal zero n = []
decimal (suc fuel) n =
    let front = decimal fuel (n / 10) in
    if ltb n 10 then (b'0' + n) ∷ [] else front ++ (b'0' + n % 10) ∷ []

-- `std::to_string`, and `<<` of an integer.
unfoldable pub to_string : ℤ → Text
unfolding decimal
to_string (pos n) = decimal (suc n) n
to_string (negsuc n) = b'-' ∷ decimal (suc (suc n)) (suc n)

unfoldable pub collector_id : Text → Text → Text
collector_id machine_id source = machine_id ++ b':' ∷ source

unfoldable pub build_machine_extra_json : HelloMessage → Text
build_machine_extra_json message =
    codes "{\"bridge_source\":"
    ++ (json_string message.envelope.source
        ++ (codes ",\"bridge_version\":" ++ (json_string message.bridge_version ++ codes "}")))

unfoldable pub build_hello_extra_json : HelloMessage → Text
build_hello_extra_json message =
    codes "{\"hostname\":"
    ++ (json_string message.hostname
        ++ (codes ",\"bridge_version\":"
            ++ (json_string message.bridge_version
                ++ (codes ",\"pid\":"
                    ++ (to_string message.pid
                        ++ (codes ",\"sample_interval_ms\":"
                            ++ (to_string message.sample_interval_ms
                                ++ (capabilities message.capabilities_json ++ codes "}"))))))))
  where
    capabilities : Text → Text
    capabilities [] = []
    capabilities (c ∷ json) = codes ",\"capabilities\":" ++ c ∷ json

unfoldable pub build_catalog_extra_json : ℕ → Text
build_catalog_extra_json sensor_count =
    codes "{\"sensor_count\":" ++ (to_string (pos sensor_count) ++ codes "}")

unfoldable pub build_sample_extra_json : ℕ → Text
build_sample_extra_json sample_count =
    codes "{\"sample_count\":" ++ (to_string (pos sample_count) ++ codes "}")

unfoldable pub build_heartbeat_extra_json : HeartbeatMessage → Text
build_heartbeat_extra_json message =
    codes "{\"uptime_s\":"
    ++ (to_string message.uptime_seconds
        ++ (codes ",\"catalog_count\":" ++ (to_string message.catalog_count ++ codes "}")))
