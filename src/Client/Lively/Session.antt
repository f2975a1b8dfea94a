-- ===== src/Client/Lively/Session.antt =====
-- The calls of a kernel, one after the other, on a client that has been mounted: each is answered.
use rust_remote_fs.Prelude.{
  ℕ, ◌+◌, ◌*◌, ◌^◌, ◌≤◌, ◌<◌, ◌≡◌, ◌≢◌, Option, some, Text, nat_eq, arith, length, subst,
}
use rust_remote_fs.HashMap.{get-nil}
use rust_remote_fs.Radix.{u32_mod, u64_mod}
use rust_remote_fs.Outcome.{Outcome, panic, reply, ◌>>◌}
use rust_remote_fs.Outcome.Calm.{
  Anything, Ended, calm_rules, Spends-Calm, Spends-before, Spends-weaken, Calm-reply,
}
use rust_remote_fs.Client.Attr.{isize_mod}
use rust_remote_fs.Client.Config.{Config, ConfigFile, Cli, load_config, override}
use rust_remote_fs.Client.Start.{Mount, mounts, Daemonizing, main, main-mounts}
use rust_remote_fs.Client.Platform.{Platform}
use rust_remote_fs.Client.State.{OpenWriteFile, Sys, Fuse, new}
use rust_remote_fs.Client.Write
use rust_remote_fs.Client.Watch.{on_text}
use rust_remote_fs.Client.Watch.Silence.{on_text_keeps}
use rust_remote_fs.Client.Inodes.Trace.{Call, answer, dispatch}
use rust_remote_fs.Client.Lively.{IsUsual, FitsVec, FitsSys}
use rust_remote_fs.Client.Lively.Steps.{Lives, Takes, grow}
use rust_remote_fs.Client.Lively.Handlers.{
  getattr-Lives, setattr-Lives, lookup-Takes, readdir-Takes, read-Lives, open-Takes, create-Takes,
  mkdir-Takes,
}
use rust_remote_fs.Client.Lively.Removal.{unlink-Roomy, rmdir-Roomy, rename-Roomy}
use rust_remote_fs.Client.Lively.Writing.{write-Lives, release-Lives}

-- A name that is UTF-8.
abbrev pub IsText : Option Text → Type 0
IsText name = (n : Text) × (name ≡ some n)

-- The calls other than deletions and moves that do not ask for too much: names are UTF-8,
-- a read has a byte at least and ends below 2^64, sizes and the ends of writes lie below 2^63. A
-- deletion or a move recurses as deep as the server has directories, so no bound on it is known here.
abbrev pub IsValid : Call → Type 0
IsValid (Call.getattr ino) = Unit
IsValid (Call.setattr ino mode size) = FitsVec size
IsValid (Call.lookup parent name) = IsText name
IsValid (Call.readdir full ino offset) = Unit
IsValid (Call.read ino offset size) = (0 < size) × (offset + size < u64_mod)
IsValid (Call.open_ ino flags) = Unit
IsValid (Call.write fh offset block) = offset + length block < isize_mod
IsValid (Call.release ino fh) = Unit
IsValid (Call.flush ino fh) = Unit
IsValid (Call.create uid gid parent name mode) = IsText name
IsValid (Call.mkdir parent name mode) = IsText name
IsValid (Call.unlink depth parent name) = ⊥
IsValid (Call.rmdir depth parent name) = ⊥
IsValid (Call.rename depth parent name newparent newname) = ⊥

module _ {P : Platform} (U : IsUsual P) where
  calm_answer : {A : Type 0} (m : Fuse P A) → Lives m → Takes u32_mod (m >> reply tt)
  calm_answer m lm = Spends-Calm grow _ (search (calm_rules, lm))

  one_more : {A : Type 0} (m : Fuse P A) → Takes 1 m → Takes u32_mod (m >> reply tt)
  one_more m tm =
      Spends-before grow _ _ (Spends-weaken grow m (omega arith) tm) (λ a. Calm-reply tt)

  -- A call takes at most as many identifiers as a listing may have entries.
  answer-Takes : (call : Call) → IsValid call → Takes u32_mod (answer P call)
  unfolding answer Write.flush
  answer-Takes (Call.getattr ino) v = calm_answer _ (getattr-Lives U ino)
  answer-Takes (Call.setattr ino mode size) v = calm_answer _ (setattr-Lives U ino mode size v)
  answer-Takes (Call.lookup parent name) (n, e) = rw e (one_more _ (lookup-Takes U parent n))
  answer-Takes (Call.readdir full ino offset) v =
      Spends-before grow _ _ (readdir-Takes U full ino offset) (λ a. Calm-reply tt)
  answer-Takes (Call.read ino offset size) (some_bytes, fits) =
      calm_answer _ (read-Lives U ino offset size some_bytes fits)
  answer-Takes (Call.open_ ino flags) v = one_more _ (open-Takes U ino flags)
  answer-Takes (Call.write fh offset block) v = calm_answer _ (write-Lives fh offset block v)
  answer-Takes (Call.release ino fh) v = Spends-Calm grow _ (release-Lives U ino fh)
  answer-Takes (Call.flush ino fh) v = Spends-Calm grow _ (Calm-reply tt)
  answer-Takes (Call.create uid gid parent name mode) (n, e) =
      rw e (one_more _ (create-Takes U uid gid parent n mode))
  answer-Takes (Call.mkdir parent name mode) (n, e) =
      rw e (one_more _ (mkdir-Takes U parent n mode))
  answer-Takes (Call.unlink depth parent name) v = absurd v
  answer-Takes (Call.rmdir depth parent name) v = absurd v
  answer-Takes (Call.rename depth parent name newparent newname) v = absurd v

-- Deletions and moves.
abbrev pub Removes : Call → Type 0
Removes (Call.getattr ino) = ⊥
Removes (Call.setattr ino mode size) = ⊥
Removes (Call.lookup parent name) = ⊥
Removes (Call.readdir full ino offset) = ⊥
Removes (Call.read ino offset size) = ⊥
Removes (Call.open_ ino flags) = ⊥
Removes (Call.write fh offset block) = ⊥
Removes (Call.release ino fh) = ⊥
Removes (Call.flush ino fh) = ⊥
Removes (Call.create uid gid parent name mode) = ⊥
Removes (Call.mkdir parent name mode) = ⊥
Removes (Call.unlink depth parent name) = Unit
Removes (Call.rmdir depth parent name) = Unit
Removes (Call.rename depth parent name newparent newname) = Unit

-- A client that `main` has mounted with a time to live below 2^62 seconds, after `n` valid calls,
-- whatever happens between them.
pub data Lived (P : Platform) (from_str : Text → Option Config) : ℕ → Sys P → Type 0 where
  mounted :
      (file : ConfigFile) (cli : Cli) (d : Daemonizing) (system_now instant_now : ℕ) (m : Mount P)
      (w : P.World)
      → main P from_str file cli d system_now instant_now ≡ mounts m
      → (override cli (load_config from_str file)).cache_ttl_seconds < 2 ^ 62
      → Lived P from_str 0 (record { fs = m.filesystem; world = w })
  called :
      {n : ℕ} {s : Sys P} (call : Call)
      → IsValid call
      → Lived P from_str n s
      → Lived P from_str (n + 1) (dispatch P call s)
  removed :
      {n : ℕ} {s : Sys P} (call : Call)
      → Removes call
      → Lived P from_str n s
      → Lived P from_str n (dispatch P call s)
  waited :
      {n : ℕ} {s : Sys P} (w : P.World)
      → Lived P from_str n s
      → Lived P from_str n (record s { world = w })
  notified :
      {n : ℕ} {s : Sys P} (me message : Text)
      → Lived P from_str n s
      → Lived P from_str n (record s { fs = on_text P me message s.fs })

-- The counters after `n` calls.
abbrev pub most : ℕ → ℕ
most n = 2 + n * u32_mod

new-Fits :
    (P : Platform) (config : Config) (system_now instant_now : ℕ) (w : P.World)
    → config.cache_ttl_seconds < 2 ^ 62
    → FitsSys {P = P} 2 (record { fs = new P config system_now instant_now; world = w })
unfolding new
new-Fits P config system_now instant_now w short = record {
  inodes = omega arith;
  handles = omega arith;
  blocks = λ fh f e. cc (get-nil {K = ℕ} {V = OpenWriteFile} fh, e);
  time_to_live = short;
}

ended-answered : {A : Type 0} (r : Outcome A) → Ended Anything r → r ≢ panic
ended-answered (Outcome.ok a) h e = cc e
ended-answered (Outcome.err x) h e = cc e
ended-answered panic h e = absurd h

removed-Fits :
    {P : Platform} (c : ℕ) (s : Sys P) (call : Call)
    → Removes call
    → FitsSys c s
    → FitsSys c (dispatch P call s)
unfolding dispatch answer
removed-Fits c s (Call.getattr ino) r h = absurd r
removed-Fits c s (Call.setattr ino mode size) r h = absurd r
removed-Fits c s (Call.lookup parent name) r h = absurd r
removed-Fits c s (Call.readdir full ino offset) r h = absurd r
removed-Fits c s (Call.read ino offset size) r h = absurd r
removed-Fits c s (Call.open_ ino flags) r h = absurd r
removed-Fits c s (Call.write fh offset block) r h = absurd r
removed-Fits c s (Call.release ino fh) r h = absurd r
removed-Fits c s (Call.flush ino fh) r h = absurd r
removed-Fits c s (Call.create uid gid parent name mode) r h = absurd r
removed-Fits c s (Call.mkdir parent name mode) r h = absurd r
removed-Fits c s (Call.unlink depth parent name) r h = (unlink-Roomy c depth parent name).at s h
removed-Fits c s (Call.rmdir depth parent name) r h = (rmdir-Roomy c depth parent name).at s h
removed-Fits c s (Call.rename depth parent name newparent newname) r h =
    (rename-Roomy c depth parent name newparent newname).at s h

module _ {P : Platform} (U : IsUsual P) (from_str : Text → Option Config) where
  -- What `k` more identifiers leave room for.
  answer-Fits :
      (n : ℕ) (s : Sys P)
      → n < 2 ^ 31
      → FitsSys (most n) s
      → (call : Call) → IsValid call
      → FitsSys (most (n + 1)) (dispatch P call s) × Ended Anything (answer P call s).0
  unfolding dispatch
  answer-Fits n s few h call v =
      let done = (answer-Takes U call v).at (most n) s (omega arith) h in
      let sum : most n + u32_mod ≡ most (n + 1) = omega arith in
      (subst (λ c. FitsSys c (dispatch P call s)) sum done.0, done.1)

  -- After `n` calls the counters of inodes and of handles are at most 2 + n * 2^32.
  Lived-Fits : {n : ℕ} {s : Sys P} → Lived P from_str n s → n ≤ 2 ^ 31 → FitsSys (most n) s
  Lived-Fits (mounted file cli d system_now instant_now m w started short) few =
      rw (main-mounts P from_str file cli d system_now instant_now m started)
        (new-Fits P _ system_now instant_now w short)
  Lived-Fits (called {n} {s} call v l) few =
      (answer-Fits n s (omega arith) (Lived-Fits l (omega arith)) call v).0
  Lived-Fits (removed {n} {s} call r l) few = removed-Fits (most n) s call r (Lived-Fits l few)
  Lived-Fits (waited w l) few = Lived-Fits l few
  Lived-Fits (notified {n} {s} me message l) few =
      on_text_keeps P (λ fs. FitsSys {P = P} (most n) (record { fs = fs; world = s.world }))
        (λ j fs h. h) me message s.fs (Lived-Fits l few)

  pub Lived-answers :
      {n : ℕ} {s : Sys P}
      → Lived P from_str n s
      → n < 2 ^ 31
      → (call : Call) → IsValid call
      → (answer P call s).0 ≢ panic
  Lived-answers {n} {s} l few call v =
      ended-answered _ (answer-Fits n s few (Lived-Fits l (omega arith)) call v).1
