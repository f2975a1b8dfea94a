-- ===== src/EndToEnd/Watching.antt =====
-- A change, from the server's message for all clients to the cache of a client that is told.
use mathlib.Core.List.{map-append}
use rust_remote_fs.Prelude.{
  ℕ, ◌+◌, ◌*◌, ◌<◌, ◌≡◌, refl, ◌≢◌, Option, none, some, List, [], ◌∷◌, ◌++◌, map, Text, arith,
  length, rsplit_once, text_eq,
}
use rust_remote_fs.HashMap
use rust_remote_fs.Server.Echo.{RecentMods, nanos_per_milli}
use rust_remote_fs.Server.Socket.{Event, websocket, Follows, websocket-prefix}
use rust_remote_fs.Client.Platform.{Platform, IsLru}
use rust_remote_fs.Client.State.{RemoteFs}
use rust_remote_fs.Client.Watch.{Incoming, invalidate, on_text, watch}
use rust_remote_fs.Client.Watch.Silence.{Silent, watch_keeps, watch-Silent, invalidate-Silent}
use rust_remote_fs.EndToEnd.Echo.{marker, message, foreign_message}

-- What stands in a list at a place that a front part of it reaches, stands there in that part.
in_front :
    {A : Type 0} (before : List A) (m : A) (rest front back : List A)
    → before ++ (m ∷ rest) ≡ front ++ back
    → length before < length front
    → (after : List A) × (front ≡ before ++ (m ∷ after))
in_front [] m rest [] back e lt = absurd (omega arith)
in_front [] m rest (x ∷ front) back e lt = (front, cc)
in_front (b ∷ before) m rest [] back e lt = absurd (omega arith)
in_front (b ∷ before) m rest (x ∷ front) back e lt =
    let (after, same) = in_front before m rest front back (cc) (omega arith) in (after, cc)

abbrev pub texts : List Text → List Incoming
texts msgs = map Incoming.text msgs

module _ (P : Platform) (me : Text) where
  watch-texts :
      (before : List Text) (rest : List Incoming) (fs : RemoteFs P)
      → watch P me (texts before ++ rest) fs ≡ watch P me rest (watch P me (texts before) fs)
  unfolding watch
  watch-texts [] rest fs = refl
  watch-texts (t ∷ before) rest fs = watch-texts before rest (on_text P me t fs)

  told :
      (m : Text) (after : List Incoming) (fs fs' : RemoteFs P) (I : RemoteFs P → Type 0)
      → on_text P me m fs ≡ fs'
      → I (watch P me after fs')
      → I (watch P me (Incoming.text m ∷ after) fs)
  unfolding watch
  told m after fs fs' I same h = rw same h

  -- A change of another client, whose id holds no marker, of a path with a known inode, of which
  -- the server's watcher is told within half a second: however many messages come before and after
  -- it, once a web socket that follows the messages has sent as many as come before it and one
  -- more, the client, which the socket's texts reach in order, ends with a cache that answers for
  -- the inode at no time. An `Lru` cache behaves as its crate documents.
  pub told-Silent :
      (L : IsLru P) (path client_id : Text) (range : Option Text) (changed now later : ℕ)
      (mods : RecentMods) (fs : RemoteFs P) (inode : ℕ) (before rest : List Text)
      (events : List Event)
      → rsplit_once marker client_id ≡ none
      → client_id ≢ me
      → now < changed + 500 * nanos_per_milli
      → HashMap.get path fs.path_to_inode ≡ some inode
      → Follows (before ++ (message path client_id range changed now later mods ∷ rest)) events
      → length before < length (websocket events)
      → Silent P L inode (watch P me (texts (websocket events)) fs)
  told-Silent L path client_id range changed now later mods fs inode before rest events clean
        foreign recent known follows reached =
      let m = message path client_id range changed now later mods in
      let (unsent, sent) = websocket-prefix events (before ++ (m ∷ rest)) follows in
      let (after, front) = in_front before m rest (websocket events) unsent sent reached in
      let fs' = watch P me (texts before) fs in
      let known' =
        watch_keeps P (λ x. HashMap.get path x.path_to_inode ≡ some inode) (λ j x h. h) me
          (texts before) fs known in
      rw (front, map-append, watch-texts)
        (told m (texts after) fs' (invalidate P path fs') (Silent P L inode)
          (foreign_message P fs' me path client_id range changed now later mods clean foreign
            recent)
          (watch-Silent P L inode me (texts after) (invalidate P path fs')
            (invalidate-Silent P L path inode fs' known')))
