-- ===== src/Tests/Json.antt =====
-- A listing as a list of numbers: a text is its signs, each behind a 1, and then a 0.
use rust_remote_fs.Prelude.{ℕ, zero, suc, ◌≡◌, refl, ap, Option, none, some, List, [], ◌∷◌, Text}
use rust_remote_fs.Wire.{Bytes, RemoteEntry}

abbrev pub code : Text → Bytes → Bytes
code [] rest = 0 ∷ rest
code (c ∷ text) rest = 1 ∷ c ∷ code text rest

abbrev in_front_of : ℕ → Option (Text × Bytes) → Option (Text × Bytes)
in_front_of c none = none
in_front_of c (some (text, rest)) = some (c ∷ text, rest)

read_text : Bytes → Option (Text × Bytes)
read_text [] = none
read_text (zero ∷ rest) = some ([], rest)
read_text (suc n ∷ []) = none
read_text (suc n ∷ c ∷ rest) = in_front_of c (read_text rest)

abbrev then_read : {A : Type 0} → Option (Text × Bytes) → (Text → Bytes → Option A) → Option A
then_read none k = none
then_read (some (text, rest)) k = k text rest

read_text-code : (text : Text) (rest : Bytes) → read_text (code text rest) ≡ some (text, rest)
unfolding read_text
read_text-code [] rest = refl
read_text-code (c ∷ text) rest = ap (in_front_of c) (read_text-code text rest)

abbrev pub code_entry : RemoteEntry → Bytes → Bytes
code_entry entry rest =
    entry.size ∷ entry.mtime ∷ code entry.name (code entry.kind (code entry.perm rest))

abbrev pub code_all : List RemoteEntry → Bytes
code_all [] = []
code_all (entry ∷ entries) = code_entry entry (code_all entries)

read_entry : Bytes → Option (RemoteEntry × Bytes)
read_entry [] = none
read_entry (size ∷ []) = none
read_entry (size ∷ mtime ∷ rest) = then_read (read_text rest) (λ name rest.
    then_read (read_text rest) (λ kind rest. then_read (read_text rest) (λ perm rest.
      some (record { name = name; kind = kind; size = size; mtime = mtime; perm = perm }, rest))))

read_entry-code :
    (entry : RemoteEntry) (rest : Bytes) → read_entry (code_entry entry rest) ≡ some (entry, rest)
unfolding read_entry
read_entry-code entry rest =
    rw
      (
        read_text-code entry.name (code entry.kind (code entry.perm rest)),
        read_text-code entry.kind (code entry.perm rest),
        read_text-code entry.perm rest,
      )
      refl

abbrev in_list : RemoteEntry → Option (List RemoteEntry) → Option (List RemoteEntry)
in_list entry none = none
in_list entry (some entries) = some (entry ∷ entries)

abbrev with_entry :
    Option (RemoteEntry × Bytes) → (Bytes → Option (List RemoteEntry)) → Option (List RemoteEntry)
with_entry none k = none
with_entry (some (entry, rest)) k = in_list entry (k rest)

pub read_all : ℕ → Bytes → Option (List RemoteEntry)
read_all zero body = some []
read_all (suc n) body = with_entry (read_entry body) (read_all n)

abbrev pub count : List RemoteEntry → ℕ
count [] = zero
count (entry ∷ entries) = suc (count entries)

pub read_all-code :
    (entries : List RemoteEntry) → read_all (count entries) (code_all entries) ≡ some entries
unfolding read_all
read_all-code [] = refl
read_all-code (entry ∷ entries) =
    rw (read_entry-code entry (code_all entries), read_all-code entries) refl

abbrev pub read_body : Bytes → Option (List RemoteEntry)
read_body [] = none
read_body (n ∷ body) = read_all n body
