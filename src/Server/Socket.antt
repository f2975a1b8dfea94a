-- ===== src/Server/Socket.antt =====
-- `websocket` of server/src/main.rs: what one client is sent of the messages for all. The channel
-- is tokio's `broadcast`; a receiver gives the messages in order, and an error when it has fallen
-- more than the channel's 100 messages behind, or when the channel is closed.
use rust_remote_fs.Prelude.{◌≡◌, refl, Bool, true, false, List, [], ◌∷◌, ◌++◌, Text}

-- What the two tasks of a connection meet, in the order in which it happens.
pub data Event : Type 0 where
  -- `rx.recv` gives a message, and whether the client's socket takes it
  message : Text → Bool → Event
  -- `rx.recv` gives an error
  missed : Event
  -- `receiver.next` gives a close frame, or anything else
  closed other_frame : Event

-- What is sent until one of the tasks ends, which ends the other. A close frame ends the second
-- task's loop by `break`, and anything else ends it since it is no close frame.
unfoldable pub websocket : List Event → List Text
websocket [] = []
websocket (message msg true ∷ events) = msg ∷ websocket events
websocket (message msg false ∷ events) = []
websocket (missed ∷ events) = []
websocket (closed ∷ events) = []
websocket (other_frame ∷ events) = []

-- The receiver gives the messages that were sent since it has subscribed, in their order, until it
-- gives an error.
abbrev pub Follows : List Text → List Event → Type 0
Follows sent [] = Unit
Follows [] (message msg took ∷ events) = ⊥
Follows (s ∷ sent) (message msg took ∷ events) = (s ≡ msg) × Follows sent events
Follows sent (missed ∷ events) = Unit
Follows sent (closed ∷ events) = Follows sent events
Follows sent (other_frame ∷ events) = Follows sent events

-- What a client is sent is a front part of the messages since it has subscribed, none of them left
-- out, changed, repeated or out of order, if the channel's receiver gives them in order until it
-- gives an error.
pub websocket-prefix :
    (events : List Event) (sent : List Text)
    → Follows sent events
    → (rest : List Text) × (sent ≡ websocket events ++ rest)
unfolding websocket
websocket-prefix [] sent h = (sent, refl)
websocket-prefix (message msg took ∷ events) [] h = elim h [ ]
websocket-prefix (message msg true ∷ events) (s ∷ sent) h =
    let (rest, same) = websocket-prefix events sent h.1 in (rest, cc (h.0, same))
websocket-prefix (message msg false ∷ events) (s ∷ sent) h = (s ∷ sent, refl)
websocket-prefix (missed ∷ events) sent h = (sent, refl)
websocket-prefix (closed ∷ events) sent h = (sent, refl)
websocket-prefix (other_frame ∷ events) sent h = (sent, refl)
