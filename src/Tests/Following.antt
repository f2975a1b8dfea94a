-- ===== src/Tests/Following.antt =====
-- A change of the client "me" to the path "a/b", on its way to the client "you".
use rust_remote_fs.Prelude.{
  ◌≡◌, ◌≢◌, refl, arith, none, some, true, List, [], ◌∷◌, Text, bytes, text_eq, rsplit_once, length,
  ◌<◌,
}
use rust_remote_fs.HashMap
use rust_remote_fs.Wire.{Headers}
use rust_remote_fs.Server.Echo.Retention.{
  Happening, messages, messages_of_all, messages-messages_of_all,
}
use rust_remote_fs.Server.Socket.{Event, websocket}
use rust_remote_fs.Client.State.{RemoteFs}
use rust_remote_fs.Client.Watch.{watch}
use rust_remote_fs.Client.Watch.Silence.{Silent}
use rust_remote_fs.EndToEnd.Echo.{marker, message}
use rust_remote_fs.EndToEnd.Watching.{texts, told-Silent}
use rust_remote_fs.Tests.World.{here, mounted_fs}
use rust_remote_fs.Tests.Lru.{here-IsLru}

abbrev events : List Event
events =
    Event.message (bytes "first") true ∷ Event.message (bytes "second") true ∷ Event.missed ∷ []

abbrev sent : List Text
sent = bytes "first" ∷ bytes "second" ∷ bytes "third" ∷ []

abbrev headers : Headers
headers = record { range = none; client_id = some (bytes "me") }

-- The second message comes after the change has been forgotten.
abbrev happenings : List Happening
happenings =
    Happening.recorded (bytes "a") headers 5
    ∷ Happening.told (bytes "a") 6 7
    ∷ Happening.told (bytes "a") 9_000_000_000 9_000_000_001
    ∷ []

messages-messages_of_all_example : messages happenings [] ≡ messages_of_all happenings []
messages-messages_of_all_example =
    messages-messages_of_all 0 happenings
      (omega arith, (omega arith, omega arith, (omega arith, omega arith, tt)))

clean : rsplit_once marker (bytes "me") ≡ none
unfolding rsplit_once
clean = refl

others : bytes "me" ≢ bytes "you"
others e = cc

abbrev knowing : RemoteFs here
knowing = record mounted_fs { path_to_inode = (bytes "a/b", 7) ∷ [] }

path_known : HashMap.get (bytes "a/b") knowing.path_to_inode ≡ some 7
unfolding HashMap.get
path_known = ground arith

abbrev change : Text
change = message (bytes "a/b") (bytes "me") none 1_000_000 400_000_000 400_000_001 []

abbrev told_events : List Event
told_events = Event.message change true ∷ Event.closed ∷ []

arrived : 0 < length (websocket told_events)
unfolding websocket
arrived = omega arith

told-Silent_example :
    Silent here here-IsLru 7 (watch here (bytes "you") (texts (websocket told_events)) knowing)
told-Silent_example =
    told-Silent here (bytes "you") here-IsLru (bytes "a/b") (bytes "me") none 1_000_000 400_000_000
      400_000_001 [] knowing 7 [] [] told_events clean others (omega arith) path_known (refl, tt)
      arrived
