-- ===== src/Outcome/Keeps.antt =====
-- What a handler leaves true of the state, however it ends: one rule for each way to build one.
use rust_remote_fs.Prelude.{
  ℕ, ◌≡◌, refl, Option, none, some, Bool, true, false, if◌then◌else◌, ltb, ◌+◌, inl, inr,
  Bool-cases,
}
use rust_remote_fs.Radix.{u64_mod}
use rust_remote_fs.Outcome.{
  Errno, Outcome, ok, err, panic, Handler, reply, reply_error, abort, reads, some_or, unwrap,
  modify, add_u64, sub_u64, ◌>>=◌, resume,
}

pub record Keeps {S A : Type 0} (I : S → Type 0) (m : Handler S A) : Type 0 where
  pub at : (s : S) → I s → I (m s).1

module _ {S A : Type 0} {I : S → Type 0} where
  pub Keeps-reply : (a : A) → Keeps I (reply a)
  unfolding reply
  Keeps-reply a = record { at = λ s h. h }

  pub Keeps-reply_error : (e : Errno) → Keeps I (reply_error {A = A} e)
  unfolding reply_error
  Keeps-reply_error e = record { at = λ s h. h }

  pub Keeps-abort : Keeps I (abort {A = A})
  unfolding abort
  Keeps-abort = record { at = λ s h. h }

  pub Keeps-reads : (f : S → A) → Keeps I (reads f)
  unfolding reads
  Keeps-reads f = record { at = λ s h. h }

  pub Keeps-some_or : (e : Errno) (o : Option A) → Keeps I (some_or e o)
  unfolding some_or
  Keeps-some_or e none = record { at = λ s h. h }
  Keeps-some_or e (some a) = record { at = λ s h. h }

  pub Keeps-unwrap : (o : Option A) → Keeps I (unwrap o)
  unfolding unwrap
  Keeps-unwrap none = record { at = λ s h. h }
  Keeps-unwrap (some a) = record { at = λ s h. h }

  pub Keeps-if :
      (b : Bool) (m n : Handler S A) → Keeps I m → Keeps I n → Keeps I (if b then m else n)
  Keeps-if true m n km kn = km
  Keeps-if false m n km kn = kn

module _ {S : Type 0} {I : S → Type 0} where
  pub Keeps-modify : (f : S → S) → ((s : S) → I s → I (f s)) → Keeps I (modify f)
  unfolding modify
  Keeps-modify f h = record { at = h }

  pub Keeps-add_u64 : (a b : ℕ) → Keeps I (add_u64 a b)
  unfolding add_u64
  Keeps-add_u64 a b = record {
    at = λ s h. elim (Bool-cases (ltb (a + b) u64_mod)) [ inl p ↦ rw p h | inr p ↦ rw p h ];
  }

  pub Keeps-sub_u64 : (a b : ℕ) → Keeps I (sub_u64 a b)
  unfolding sub_u64
  Keeps-sub_u64 a b = record {
    at = λ s h. elim (Bool-cases (ltb a b)) [ inl p ↦ rw p h | inr p ↦ rw p h ];
  }

module _ {S A B : Type 0} {I : S → Type 0} where
  Keeps-resume :
      (r : Outcome A) (f : A → Handler S B) → ((a : A) → Keeps I (f a)) → Keeps I (resume r f)
  Keeps-resume (ok a) f kf = kf a
  Keeps-resume (err e) f kf = record { at = λ s h. h }
  Keeps-resume panic f kf = record { at = λ s h. h }

  pub Keeps-bind :
      (m : Handler S A) (f : A → Handler S B)
      → Keeps I m
      → ((a : A) → Keeps I (f a))
      → Keeps I (m >>= f)
  unfolding ◌>>=◌
  Keeps-bind m f km kf = record { at = λ s h. (Keeps-resume (m s).0 f kf).at (m s).1 (km.at s h) }

-- From `I` a handler leads to `J`, however it ends.
pub record Leads {S A : Type 0} (I J : S → Type 0) (m : Handler S A) : Type 0 where
  pub to : (s : S) → I s → J (m s).1

module _ {S A B : Type 0} {I J : S → Type 0} (weaken : (s : S) → I s → J s) where
  Leads-resume :
      (r : Outcome A) (f : A → Handler S B) → ((a : A) → Leads I J (f a)) → Leads I J (resume r f)
  Leads-resume (ok a) f lf = lf a
  Leads-resume (err e) f lf = record { to = weaken }
  Leads-resume panic f lf = record { to = weaken }

  -- `I` holds until the last step, and gives `J` if that is not reached.
  pub Leads-bind :
      (m : Handler S A) (f : A → Handler S B)
      → Keeps I m
      → ((a : A) → Leads I J (f a))
      → Leads I J (m >>= f)
  unfolding ◌>>=◌
  Leads-bind m f km lf = record { to = λ s h. (Leads-resume (m s).0 f lf).to (m s).1 (km.at s h) }

module _ {S A B : Type 0} {I : S → Type 0} where
  -- What is read of the state is known in the step that follows.
  pub Keeps-reads-bind :
      (g : S → A) (k : A → Handler S B)
      → ((a : A) → Leads (λ s. I s × (g s ≡ a)) I (k a))
      → Keeps I (reads g >>= k)
  unfolding ◌>>=◌
  Keeps-reads-bind g k lk = record { at = λ s h. (lk (g s)).to s (h, refl) }

  -- The same for a lookup that must succeed.
  pub Leads-some_or-bind :
      (e : Errno) (g : S → Option A) (k : A → Handler S B)
      → ((a : A) → Leads (λ s. I s × (g s ≡ some a)) I (k a))
      → (o : Option A) → Leads (λ s. I s × (g s ≡ o)) I (some_or e o >>= k)
  unfolding ◌>>=◌
  Leads-some_or-bind e g k lk none = record { to = λ s h. h.0 }
  Leads-some_or-bind e g k lk (some a) = lk a

pub ruleset keeps_rules = (
  Keeps-reply, Keeps-reply_error, Keeps-abort, Keeps-reads, Keeps-some_or, Keeps-unwrap, Keeps-if,
  Keeps-add_u64, Keeps-sub_u64, Keeps-bind,
)
