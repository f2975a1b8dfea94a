-- ===== src/Outcome/Calm.antt =====
-- Handlers that end with a reply or an error code and never panic, from every state that fits a
-- bound, and leave one that does.
use rust_remote_fs.Prelude.{
  ℕ, ◌+◌, ◌-◌, ◌≤◌, ◌<◌, ◌≡◌, refl, Option, none, some, Bool, true, false, if◌then◌else◌, arith,
  subst,
}
use rust_remote_fs.Outcome.{
  Errno, Outcome, ok, err, panic, Handler, reply, reply_error, reads, some_or, unwrap, modify,
  ◌>>=◌, resume,
}

-- The value is as `Q` says, if there is one, and there is no panic.
abbrev pub Ended : {A : Type 0} → (A → Type 0) → Outcome A → Type 0
Ended Q (ok a) = Q a
Ended Q (err e) = Unit
Ended Q panic = ⊥

abbrev pub Anything : {A : Type 0} → A → Type 0
Anything a = Unit

-- The bound is `c` before and after.
pub record Gives {S A : Type 0} (I : ℕ → S → Type 0) (Q : A → Type 0) (m : Handler S A)
    : Type 0 where
  pub at : (c : ℕ) (s : S) → I c s → I c (m s).1 × Ended Q (m s).0

abbrev pub Calm : {S A : Type 0} → (ℕ → S → Type 0) → Handler S A → Type 0
Calm I m = Gives I Anything m

module _ {S A : Type 0} {I : ℕ → S → Type 0} where
  pub Calm-reply : (a : A) → Calm I (reply a)
  unfolding reply
  Calm-reply a = record { at = λ c s h. (h, tt) }

  pub Calm-reply_error : (e : Errno) → Calm I (reply_error {A = A} e)
  unfolding reply_error
  Calm-reply_error e = record { at = λ c s h. (h, tt) }

  pub Calm-reads : (f : S → A) → Calm I (reads f)
  unfolding reads
  Calm-reads f = record { at = λ c s h. (h, tt) }

  pub Calm-some_or : (e : Errno) (o : Option A) → Calm I (some_or e o)
  unfolding some_or
  Calm-some_or e none = record { at = λ c s h. (h, tt) }
  Calm-some_or e (some a) = record { at = λ c s h. (h, tt) }

  pub Calm-unwrap : (a : A) → Calm I (unwrap (some a))
  unfolding unwrap
  Calm-unwrap a = record { at = λ c s h. (h, tt) }

  pub Calm-if : (b : Bool) (m n : Handler S A) → Calm I m → Calm I n → Calm I (if b then m else n)
  Calm-if true m n cm cn = cm
  Calm-if false m n cm cn = cn

  -- What every state that fits tells of a value that is read.
  pub Gives-reads :
      {Q : A → Type 0} (f : S → A) → ((c : ℕ) (s : S) → I c s → Q (f s)) → Gives I Q (reads f)
  unfolding reads
  Gives-reads f q = record { at = λ c s h. (h, q c s h) }

  pub Gives-some_or :
      {Q : A → Type 0} (e : Errno) (o : Option A)
      → ((a : A) → o ≡ some a → Q a)
      → Gives I Q (some_or e o)
  unfolding some_or
  Gives-some_or e none q = record { at = λ c s h. (h, tt) }
  Gives-some_or e (some a) q = record { at = λ c s h. (h, q a refl) }

module _ {S : Type 0} {I : ℕ → S → Type 0} where
  pub Calm-modify : (f : S → S) → ((c : ℕ) (s : S) → I c s → I c (f s)) → Calm I (modify f)
  unfolding modify
  Calm-modify f h = record { at = λ c s i. (h c s i, tt) }

module _ {S A B : Type 0} {I : ℕ → S → Type 0} where
  Gives-resume :
      {Q : A → Type 0} {R : B → Type 0} (f : A → Handler S B)
      → ((a : A) → Q a → Gives I R (f a))
      → (r : Outcome A) → Ended Q r
      → Gives I R (resume r f)
  Gives-resume f gf (ok a) q = gf a q
  Gives-resume f gf (err e) q = record { at = λ c s h. (h, tt) }
  Gives-resume f gf panic q = absurd q

  pub Gives-bind :
      {Q : A → Type 0} {R : B → Type 0} (m : Handler S A) (f : A → Handler S B)
      → Gives I Q m
      → ((a : A) → Q a → Gives I R (f a))
      → Gives I R (m >>= f)
  unfolding ◌>>=◌
  Gives-bind m f gm gf = record {
    at = λ c s h. let done = gm.at c s h in (Gives-resume f gf (m s).0 done.1).at c (m s).1 done.0;
  }

  pub Calm-bind :
      (m : Handler S A) (f : A → Handler S B)
      → Calm I m
      → ((a : A) → Calm I (f a))
      → Calm I (m >>= f)
  Calm-bind m f cm cf = Gives-bind m f cm (λ a q. cf a)

pub ruleset calm_rules =
    (Calm-reply, Calm-reply_error, Calm-reads, Calm-some_or, Calm-unwrap, Calm-if, Calm-bind)

-- The bound grows by `k`, and stays below `limit`.
pub record Spends {S A : Type 0} (I : ℕ → S → Type 0) (limit k : ℕ) (m : Handler S A) : Type 0 where
  pub at : (c : ℕ) (s : S) → c + k < limit → I c s → I (c + k) (m s).1 × Ended Anything (m s).0

module _ {S A : Type 0} {I : ℕ → S → Type 0} {limit k : ℕ}
    (grow : (c n : ℕ) (s : S) → I c s → I (c + n) s) where
  pub Spends-Calm : (m : Handler S A) → Calm I m → Spends I limit k m
  Spends-Calm m cm = record {
    at = λ c s room h. let done = cm.at c s h in (grow c k (m s).1 done.0, done.1);
  }

  pub Spends-weaken : {n : ℕ} (m : Handler S A) → n ≤ k → Spends I limit n m → Spends I limit k m
  Spends-weaken {n} m le sm = record {
    at = λ c s room h.
        let done = sm.at c s (omega arith) h in
        let more : (c + n) + (k - n) ≡ c + k = omega arith in
        (subst (λ x. I x (m s).1) more (grow (c + n) (k - n) (m s).1 done.0), done.1);
  }

  pub Spends-if :
      (b : Bool) (m n : Handler S A)
      → Spends I limit k m
      → Spends I limit k n
      → Spends I limit k (if b then m else n)
  Spends-if true m n sm sn = sm
  Spends-if false m n sm sn = sn

module _ {S A B : Type 0} {I : ℕ → S → Type 0} {limit k : ℕ}
    (grow : (c n : ℕ) (s : S) → I c s → I (c + n) s) where
  Spends-resume :
      {Q : A → Type 0} (f : A → Handler S B)
      → ((a : A) → Q a → Spends I limit k (f a))
      → (r : Outcome A) → Ended Q r
      → Spends I limit k (resume r f)
  Spends-resume f sf (ok a) q = sf a q
  Spends-resume f sf (err e) q = record { at = λ c s room h. (grow c k s h, tt) }
  Spends-resume f sf panic q = absurd q

  -- The growth comes in the last step.
  pub Spends-after :
      {Q : A → Type 0} (m : Handler S A) (f : A → Handler S B)
      → Gives I Q m
      → ((a : A) → Q a → Spends I limit k (f a))
      → Spends I limit k (m >>= f)
  unfolding ◌>>=◌
  Spends-after m f gm sf = record {
    at = λ c s room h.
        let done = gm.at c s h in (Spends-resume f sf (m s).0 done.1).at c (m s).1 room done.0;
  }

  pub Spends-Calm_after :
      (m : Handler S A) (f : A → Handler S B)
      → Calm I m
      → ((a : A) → Spends I limit k (f a))
      → Spends I limit k (m >>= f)
  Spends-Calm_after m f cm sf = Spends-after m f cm (λ a q. sf a)

  -- The growth comes in the first step.
  pub Spends-before :
      (m : Handler S A) (f : A → Handler S B)
      → Spends I limit k m
      → ((a : A) → Calm I (f a))
      → Spends I limit k (m >>= f)
  unfolding ◌>>=◌
  Spends-before m f sm cf = record {
    at = λ c s room h.
        let done = sm.at c s room h in
        (Gives-resume f (λ a q. cf a) (m s).0 done.1).at (c + k) (m s).1 done.0;
  }

module _ {S A B : Type 0} {I : ℕ → S → Type 0} {limit k n : ℕ}
    (grow : (c n : ℕ) (s : S) → I c s → I (c + n) s) where
  -- Both steps grow.
  pub Spends-then :
      (m : Handler S A) (f : A → Handler S B)
      → Spends I limit k m
      → ((a : A) → Spends I limit n (f a))
      → Spends I limit (k + n) (m >>= f)
  unfolding ◌>>=◌
  Spends-then m f sm sf = record {
    at = λ c s room h.
        let first : c + k < limit = omega arith in
        let second : (c + k) + n < limit = omega arith in
        let sum : (c + k) + n ≡ c + (k + n) = omega arith in
        let done = sm.at c s first h in
        let ended =
          (Spends-resume {k = n} grow f (λ a q. sf a) (m s).0 done.1).at (c + k) (m s).1 second
            done.0 in
        (subst (λ x. I x (resume (m s).0 f (m s).1).1) sum ended.0, ended.1);
  }
