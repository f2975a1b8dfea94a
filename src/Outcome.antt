-- ===== src/Outcome.antt =====
-- How a FUSE handler ends: it replies with a value or an error code, or it panics. What it has
-- changed before that stays changed, so the state comes back in every case. Arithmetic that
-- overflows panics, as it does under the `cargo run` and `cargo build` of the repository's docs.
pub mod Keeps
pub mod Calm
use rust_remote_fs.Prelude.{ℕ, ◌+◌, ◌-◌, Option, none, some, ltb, if◌then◌else◌}
use rust_remote_fs.Radix.{u64_mod}

pub data Errno : Type 0 where
  eio enoent ebadf enotempty enodata : Errno

pub data Outcome (A : Type 0) : Type 0 where
  ok : A → Outcome A
  err : Errno → Outcome A
  panic : Outcome A

abbrev pub Handler : Type 0 → Type 0 → Type 0
Handler S A = S → Outcome A × S

module _ {S A : Type 0} where
  unfoldable pub reply : A → Handler S A
  reply a s = (ok a, s)

  unfoldable pub reply_error : Errno → Handler S A
  reply_error e s = (err e, s)

  unfoldable pub abort : Handler S A
  abort s = (panic, s)

  unfoldable pub reads : (S → A) → Handler S A
  reads f s = (ok (f s), s)

  -- `match o { Some(a) => a, None => { reply.error(e); return; } }`
  unfoldable pub some_or : Errno → Option A → Handler S A
  some_or e none s = (err e, s)
  some_or e (some a) s = (ok a, s)

  -- `o.unwrap()`
  unfoldable pub unwrap : Option A → Handler S A
  unwrap none s = (panic, s)
  unwrap (some a) s = (ok a, s)

module _ {S : Type 0} where
  unfoldable pub modify : (S → S) → Handler S Unit
  modify f s = (ok tt, f s)

  -- `a + b` on `u64`
  unfoldable pub add_u64 : ℕ → ℕ → Handler S ℕ
  add_u64 a b s = if ltb (a + b) u64_mod then (ok (a + b), s) else (panic, s)

  -- `a - b` on `u64`
  unfoldable pub sub_u64 : ℕ → ℕ → Handler S ℕ
  sub_u64 a b s = if ltb a b then (panic, s) else (ok (a - b), s)

module _ {S A B : Type 0} where
  abbrev pub resume : Outcome A → (A → Handler S B) → Handler S B
  resume (ok a) f s = f a s
  resume (err e) f s = (err e, s)
  resume panic f s = (panic, s)

  -- To open this is to open what the handlers are made of.
  infixl 5 ◌>>=◌ ◌>>◌
  unfoldable pub ◌>>=◌ : Handler S A → (A → Handler S B) → Handler S B
  unfolding reply reply_error abort reads some_or unwrap modify add_u64 sub_u64
  ◌>>=◌ m f s = let r = m s in resume r.0 f r.1

  abbrev pub ◌>>◌ : Handler S A → Handler S B → Handler S B
  m >> k = m >>= λ _. k
