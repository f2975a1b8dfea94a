-- ===== src/EndToEnd/Echo.antt =====
-- A change that a client makes on the server, and the notification that comes of it.
use rust_remote_fs.Prelude.{
  ℕ, ◌+◌, ◌*◌, ◌<◌, ◌≤◌, ◌≡◌, refl, ◌≢◌, ◌∙◌, Option, none, some, [], ◌++◌, Text, bytes, arith,
  text_eq, rsplit_once, rsplit_once-append, rsplit_once_past, rsplit_once_of_Lacks, Lacks-append,
  strip_prefix-append, ite,
}
use mathlib.Core.Logic.{if_pos, if_neg}
use mathlib.Core.List.{append-nil}
use rust_remote_fs.HashMap.{get-insert}
use rust_remote_fs.Radix.{print}
use rust_remote_fs.Radix.RoundTrip.{Lacks-print, above_digits}
use rust_remote_fs.Client.Config.{Config}
use rust_remote_fs.Server.Echo.{RecentMods, record_change, notify, nanos_per_milli}
use rust_remote_fs.Client.Platform.{Platform, IsLru}
use rust_remote_fs.Client.State.{RemoteFs, new}
use rust_remote_fs.Client.Watch.Silence.{Forgets, invalidate-Forgets}
use rust_remote_fs.Client.Watch.{read_signature, invalidate, on_text}

abbrev pub marker : Text
marker = bytes "|BY:"

-- The message for a change that this client made just before.
module _ (path client_id : Text) (range : Option Text) (before now later : ℕ)
    (mods : RecentMods) where
  abbrev pub message : Text
  message =
      (notify path now later
        (record_change path (record { range = range; client_id = some client_id }) before mods)).0

  message-recent :
      now < before + 500 * nanos_per_milli
      → message ≡ bytes "CHANGE:" ++ (path ++ (marker ++ client_id))
  unfolding notify record_change
  message-recent recent = ground (arith, get-insert path path (client_id, before) mods)

  message-late : before + 500 * nanos_per_milli ≤ now → message ≡ bytes "CHANGE:" ++ (path ++ [])
  unfolding notify record_change
  message-late late = ground (arith, get-insert path path (client_id, before) mods)

-- A signature that holds no marker of its own is read back, whatever the path holds.
pub read_signature-signed :
    (path id : Text)
    → rsplit_once marker id ≡ none
    → read_signature (bytes "CHANGE:" ++ (path ++ (marker ++ id)))
      ≡ (bytes "CHANGE:" ++ path, some id)
unfolding read_signature
read_signature-signed path id clean =
    ground (
      arith,
      rsplit_once-append b'|' (bytes "BY:") (omega arith) (bytes "CHANGE:" ++ path) id clean,
    )

read_signature-unsigned :
    (path : Text)
    → rsplit_once marker path ≡ none
    → read_signature (bytes "CHANGE:" ++ path) ≡ (bytes "CHANGE:" ++ path, none)
unfolding read_signature
read_signature-unsigned path clean = ground (
  arith,
  rsplit_once_past b'|' (bytes "BY:") (omega arith) (bytes "CHANGE:") path (omega arith) clean,
)

module _ (P : Platform) (fs : RemoteFs P) where
  on_signed :
      (my_id path id : Text)
      → rsplit_once marker id ≡ none
      → on_text P my_id (bytes "CHANGE:" ++ (path ++ (marker ++ id))) fs
        ≡ ite (text_eq.dec id my_id) fs (invalidate P path fs)
  unfolding on_text
  on_signed my_id path id clean =
      ground
        (arith, read_signature-signed path id clean, strip_prefix-append (bytes "CHANGE:") path)

  on_plain :
      (my_id path : Text)
      → rsplit_once marker path ≡ none
      → on_text P my_id (bytes "CHANGE:" ++ path) fs ≡ invalidate P path fs
  unfolding on_text
  on_plain my_id path clean =
      ground (arith, read_signature-unsigned path clean, strip_prefix-append (bytes "CHANGE:") path)

  -- A client whose id holds no marker passes over the notification of its own change, if the
  -- watcher is told within half a second of it.
  pub own_change :
      (path client_id : Text) (range : Option Text) (before now later : ℕ) (mods : RecentMods)
      → rsplit_once marker client_id ≡ none
      → now < before + 500 * nanos_per_milli
      → on_text P client_id (message path client_id range before now later mods) fs ≡ fs
  own_change path client_id range before now later mods clean recent =
      rw (message-recent path client_id range before now later mods recent) (
        on_signed client_id path client_id clean
        ∙ if_pos (text_eq.dec client_id client_id) refl fs (invalidate P path fs))

  -- What a client does with the message for a change of another one.
  pub foreign_message :
      (my_id path client_id : Text) (range : Option Text) (before now later : ℕ) (mods : RecentMods)
      → rsplit_once marker client_id ≡ none
      → client_id ≢ my_id
      → now < before + 500 * nanos_per_milli
      → on_text P my_id (message path client_id range before now later mods) fs
        ≡ invalidate P path fs
  foreign_message my_id path client_id range before now later mods clean other recent =
      rw (message-recent path client_id range before now later mods recent) (
        on_signed my_id path client_id clean
        ∙ if_neg (text_eq.dec client_id my_id) other fs (invalidate P path fs))

  -- What it does with a message without a signature.
  late_message :
      (my_id path client_id : Text) (range : Option Text) (before now later : ℕ) (mods : RecentMods)
      → rsplit_once marker path ≡ none
      → before + 500 * nanos_per_milli ≤ now
      → on_text P my_id (message path client_id range before now later mods) fs
        ≡ invalidate P path fs
  late_message my_id path client_id range before now later mods clean late =
      rw (message-late path client_id range before now later mods late, append-nil)
        (on_plain my_id path clean)

  -- What it does when the path has a marker of its own.
  marked_message :
      (my_id front back client_id : Text) (range : Option Text) (before now later : ℕ)
      (mods : RecentMods)
      → rsplit_once marker back ≡ none
      → back ≢ my_id
      → before + 500 * nanos_per_milli ≤ now
      → on_text P my_id
          (message (front ++ (marker ++ back)) client_id range before now later mods)
          fs
        ≡ invalidate P front fs
  marked_message my_id front back client_id range before now later mods clean other late =
      rw
        (
          message-late (front ++ (marker ++ back)) client_id range before now later mods late,
          append-nil,
        )
        (on_signed my_id front back clean
          ∙ if_neg (text_eq.dec back my_id) other fs (invalidate P front fs))

module _ (P : Platform) (L : IsLru P) (fs : RemoteFs P) where
  -- Every other client, with an `lru` crate that behaves as documented, if the id of the one that
  -- made the change holds no marker and the watcher is told within half a second: its cache answers
  -- no more for the inodes that it has for the path and for the path's directory, and for all other
  -- inodes as before.
  pub foreign_change :
      (my_id path client_id : Text) (range : Option Text) (before now later : ℕ) (mods : RecentMods)
      → rsplit_once marker client_id ≡ none
      → client_id ≢ my_id
      → now < before + 500 * nanos_per_milli
      → Forgets P L path fs
          (on_text P my_id (message path client_id range before now later mods) fs)
  foreign_change my_id path client_id range before now later mods clean other recent =
      rw (foreign_message P fs my_id path client_id range before now later mods clean other recent)
        (invalidate-Forgets P L path fs)

  -- If the watcher is told half a second after the change or later and the path holds no marker:
  -- the cache of every client, the one that made the change too, answers no more for the inodes
  -- that it has for the path and for the path's directory, and for all other inodes as before.
  pub late_change :
      (my_id path client_id : Text) (range : Option Text) (before now later : ℕ) (mods : RecentMods)
      → rsplit_once marker path ≡ none
      → before + 500 * nanos_per_milli ≤ now
      → Forgets P L path fs
          (on_text P my_id (message path client_id range before now later mods) fs)
  late_change my_id path client_id range before now later mods clean late =
      rw (late_message P fs my_id path client_id range before now later mods clean late)
        (invalidate-Forgets P L path fs)

  -- A path with a marker in it is cut there when its change is told late and so not signed: the
  -- cache of a client whose id is not what stands behind the last marker answers no more for the
  -- inodes that it has for the part before and for the directory of that, and for all other inodes
  -- as before, so also for that of the whole path if it is another.
  pub marker_in_path :
      (my_id front back client_id : Text) (range : Option Text) (before now later : ℕ)
      (mods : RecentMods)
      → rsplit_once marker back ≡ none
      → back ≢ my_id
      → before + 500 * nanos_per_milli ≤ now
      → Forgets P L front fs (
          on_text P my_id
            (message (front ++ (marker ++ back)) client_id range before now later mods)
            fs)
  marker_in_path my_id front back client_id range before now later mods clean other late =
      rw
        (marked_message P fs my_id front back client_id range before now later mods clean other
          late)
        (invalidate-Forgets P L front fs)

-- The ids that `RemoteFS::new` makes hold no marker.
client_id-new :
    (P : Platform) (config : Config) (system_now instant_now : ℕ)
    → rsplit_once marker ((new P config system_now instant_now).client_id) ≡ none
unfolding new
client_id-new P config system_now instant_now =
    rsplit_once_of_Lacks b'|' (bytes "BY:") (bytes "client-" ++ print 10 system_now) (
      Lacks-append b'|' (bytes "client-") (print 10 system_now) (omega arith) (
        Lacks-print b'|' (above_digits b'|' (omega arith)) 10 (omega arith) (omega arith)
          system_now))
