-- ===== src/Server/Echo/Retention.antt =====
-- The watcher of server/src/main.rs forgets old changes. No message shows it.
use mathlib.Core.Path.{ap₂}
use rust_remote_fs.Prelude.{
  ℕ, ◌≤◌, ◌≡◌, refl, ap, inl, inr, Bool-cases, ◌∙◌, Option, none, some, Option-cases, List, [], ◌∷◌,
  ◌++◌, Text, bytes, arith, text_eq, if◌then◌else◌,
}
use rust_remote_fs.HashMap
use rust_remote_fs.HashMap.{Unique, get-insert, insert-Unique}
use rust_remote_fs.Wire.{Headers}
use rust_remote_fs.Server.Echo.{RecentMods, is_kept, sign, retain, record_change, notify}

abbrev kept : ℕ → Option (Text × ℕ) → Option (Text × ℕ)
kept now none = none
kept now (some (client_id, time)) = if is_kept now time then some (client_id, time) else none

get-retain :
    (now : ℕ) (path : Text) (mods : RecentMods)
    → Unique mods
    → HashMap.get path (retain now mods) ≡ kept now (HashMap.get path mods)
unfolding retain HashMap.get
get-retain now path [] u = refl
get-retain now path ((p, (client_id, time)) ∷ mods) u =
    ground (arith, get-retain now path mods u.1, u.0)

retain-Unique : (now : ℕ) (mods : RecentMods) → Unique mods → Unique (retain now mods)
unfolding retain
retain-Unique now [] u = tt
retain-Unique now ((p, (client_id, time)) ∷ mods) u = elim (Bool-cases (is_kept now time)) [
  | inl recent ↦
      rw recent (get-retain now p mods u.1 ∙ ap (kept now) u.0, retain-Unique now mods u.1)
  | inr old ↦ rw old (retain-Unique now mods u.1)
]

-- What is dropped at a time would sign nothing from then on.
sign-kept :
    (now later : ℕ) (o : Option (Text × ℕ)) → later ≤ now → sign now (kept later o) ≡ sign now o
sign-kept now later none le = refl
sign-kept now later (some (client_id, time)) le = ground arith

-- What happens to the map of changes: a handler records one, or the watcher is told of one.
pub data Happening : Type 0 where
  recorded : (path : Text) (headers : Headers) (now : ℕ) → Happening
  told : (path : Text) (now later : ℕ) → Happening

-- The clock does not run backwards.
abbrev pub InOrder : ℕ → List Happening → Type 0
InOrder t [] = Unit
InOrder t (recorded path headers now ∷ rest) = (t ≤ now) × InOrder now rest
InOrder t (told path now later ∷ rest) = (t ≤ now) × (now ≤ later) × InOrder later rest

unfoldable pub messages : List Happening → RecentMods → List Text
messages [] mods = []
messages (recorded path headers now ∷ rest) mods =
    messages rest (record_change path headers now mods)
messages (told path now later ∷ rest) mods =
    let sent = notify path now later mods in sent.0 ∷ messages rest sent.1

-- The same, with a map that only grows.
unfoldable pub messages_of_all : List Happening → RecentMods → List Text
messages_of_all [] mods = []
messages_of_all (recorded path headers now ∷ rest) mods =
    messages_of_all rest (record_change path headers now mods)
messages_of_all (told path now later ∷ rest) mods =
    (notify path now later mods).0 ∷ messages_of_all rest mods

-- From `t` on, the two maps sign alike.
abbrev SignAlike : ℕ → RecentMods → RecentMods → Type 0
SignAlike t m all =
    (path : Text) (now : ℕ)
    → t ≤ now
    → sign now (HashMap.get path m) ≡ sign now (HashMap.get path all)

record_change-SignAlike :
    (t : ℕ) (path : Text) (headers : Headers) (now : ℕ) (m all : RecentMods)
    → SignAlike t m all
    → t ≤ now
    → SignAlike now (record_change path headers now m) (record_change path headers now all)
unfolding record_change
record_change-SignAlike t path headers now m all alike le q time after =
    elim (Option-cases headers.client_id) [
      | inl anonymous ↦ rw anonymous (alike q time (omega arith))
      | inr ((id, signed)) ↦ rw signed (
          ground
            (arith, get-insert path q (id, now) m, get-insert path q (id, now) all, alike q time))
    ]

record_change-Unique :
    (path : Text) (headers : Headers) (now : ℕ) (m : RecentMods)
    → Unique m
    → Unique (record_change path headers now m)
unfolding record_change
record_change-Unique path headers now m u = elim (Option-cases headers.client_id) [
  | inl anonymous ↦ rw anonymous u
  | inr ((id, signed)) ↦ rw signed (insert-Unique path (id, now) m u)
]

messages-eq :
    (t : ℕ) (happenings : List Happening) (m all : RecentMods)
    → InOrder t happenings
    → Unique m
    → SignAlike t m all
    → messages happenings m ≡ messages_of_all happenings all
unfolding messages messages_of_all notify
messages-eq t [] m all ordered u alike = refl
messages-eq t (recorded path headers now ∷ rest) m all ordered u alike =
    messages-eq now rest _ _ ordered.1 (record_change-Unique path headers now m u)
      (record_change-SignAlike t path headers now m all alike ordered.0)
messages-eq t (told path now later ∷ rest) m all ordered u alike =
    let same : (q : Text) (time : ℕ)
        → later ≤ time
        → sign time (HashMap.get q (retain later m)) ≡ sign time (HashMap.get q all) =
      λ q time le.
        ap (sign time) (get-retain later q m u)
        ∙ sign-kept time later (HashMap.get q m) le
        ∙ alike q time (omega arith) in
    ap₂ (λ x rest. (bytes "CHANGE:" ++ (path ++ x)) ∷ rest) (alike path now ordered.0)
      (messages-eq later rest (retain later m) all ordered.2 (retain-Unique later m u) same)

-- However handlers record changes and the watcher is told of some, at times that do not run
-- backwards: the messages to the clients are the same as those of a server that never drops a
-- recorded change.
pub messages-messages_of_all :
    (t : ℕ) (happenings : List Happening)
    → InOrder t happenings
    → messages happenings [] ≡ messages_of_all happenings []
messages-messages_of_all t happenings ordered =
    messages-eq t happenings [] [] ordered tt (λ path now le. refl)
