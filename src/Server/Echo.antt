-- ===== src/Server/Echo.antt =====
-- The echo suppression of the server: `record_change` of server/src/handlers.rs, and the watcher's
-- callback in server/src/main.rs.
pub mod Retention
use rust_remote_fs.Prelude.{
  ℕ, ◌-◌, ◌*◌, Bool, Option, none, some, List, [], ◌∷◌, ◌++◌, Text, bytes, text_eq, ltb,
  if◌then◌else◌,
}
use rust_remote_fs.HashMap
use rust_remote_fs.HashMap.{HashMap}
use rust_remote_fs.Wire.{Headers}

-- `AppState.recent_mods`: the client of the last change to a path, and when it was.
abbrev pub RecentMods : Type 0
RecentMods = HashMap Text (Text × ℕ)

abbrev pub nanos_per_milli : ℕ
nanos_per_milli = 1_000_000

-- A change without a readable client id is not recorded.
abbrev record_for : Option Text → Text → ℕ → RecentMods → RecentMods
record_for none path now mods = mods
record_for (some client_id) path now mods = HashMap.insert path (client_id, now) mods

unfoldable pub record_change : Text → Headers → ℕ → RecentMods → RecentMods
record_change path headers now mods = record_for headers.client_id path now mods

-- `t.elapsed()`
abbrev elapsed : (now before : ℕ) → ℕ
elapsed now before = now - before

-- A change is signed for half a second, and forgotten after five.
abbrev pub is_recent : (now before : ℕ) → Bool
is_recent now before = ltb (elapsed now before) (500 * nanos_per_milli)

abbrev pub is_kept : (now before : ℕ) → Bool
is_kept now before = ltb (elapsed now before) (5000 * nanos_per_milli)

abbrev pub sign : ℕ → Option (Text × ℕ) → Text
sign now none = []
sign now (some (client_id, time)) = if is_recent now time then bytes "|BY:" ++ client_id else []

-- `HashMap::retain`
unfoldable pub retain : ℕ → RecentMods → RecentMods
retain now [] = []
retain now ((path, (client_id, time)) ∷ mods) =
    let rest = retain now mods in
    if is_kept now time then (path, (client_id, time)) ∷ rest else rest

-- One changed path, relative to the data directory: the message for all clients, and the map with
-- its old entries dropped. `later` is the time at which they are.
unfoldable pub notify : Text → (now later : ℕ) → RecentMods → Text × RecentMods
unfolding retain
notify path now later mods =
    (bytes "CHANGE:" ++ (path ++ sign now (HashMap.get path mods)), retain later mods)

-- An event's paths; `none` is one outside of the data directory. The messages go to every client.
unfoldable pub on_event : List (Option Text × ℕ × ℕ) → RecentMods → List Text × RecentMods
unfolding notify
on_event [] mods = ([], mods)
on_event ((none, now, later) ∷ paths) mods = on_event paths mods
on_event ((some path, now, later) ∷ paths) mods =
    let sent = notify path now later mods in
    let rest = on_event paths sent.1 in (sent.0 ∷ rest.0, rest.1)
