-- ===== src/EndToEnd/Deleting/Trees.antt =====
-- A directory of the server with a tree of a known depth below it, and what a removal elsewhere
-- leaves of it.
use rust_remote_fs.Prelude.{
  ℕ, zero, suc, ◌≡◌, refl, Option-cases, Bool-cases, ◌≢◌, ap, sym, ◌∙◌, Bool, true, false, Option,
  some, inl, inr, List, [], ◌∷◌, Text,
}
use rust_remote_fs.Prelude.Paths.{
  joined, joined_assoc, Disjoint, Simple, Disjoint-child, Disjoint-siblings,
}
use rust_remote_fs.Wire.{RemoteEntry, Headers}
use rust_remote_fs.Server.Disk.{Disk}
use rust_remote_fs.Server.Disk.Tree.{kind_at, kind_of, Removed, IsTree}
use rust_remote_fs.Server.Handlers.{ServerState, file_path, delete_file, list_directory_contents}
use rust_remote_fs.Client.Delete.{is_directory}

abbrev pub All : (RemoteEntry → Type 0) → List RemoteEntry → Type 0
All Q [] = Unit
All Q (entry ∷ entries) = Q entry × All Q entries

All-map :
    (Q R : RemoteEntry → Type 0) (entries : List RemoteEntry)
    → ((entry : RemoteEntry) → Q entry → R entry)
    → All Q entries
    → All R entries
All-map Q R [] f h = tt
All-map Q R (entry ∷ entries) f h = (f entry h.0, All-map Q R entries f h.1)

pub All-zip :
    (Q R S : RemoteEntry → Type 0) (entries : List RemoteEntry)
    → ((entry : RemoteEntry) → Q entry → R entry → S entry)
    → All Q entries
    → All R entries
    → All S entries
All-zip Q R S [] f h g = tt
All-zip Q R S (entry ∷ entries) f h g = (f entry h.0 g.0, All-zip Q R S entries f h.1 g.1)

-- No two entries have the same name.
abbrev pub Distinct : List RemoteEntry → Type 0
Distinct [] = Unit
Distinct (entry ∷ entries) = All (λ other. entry.name ≢ other.name) entries × Distinct entries

module _ (D : Disk) (data_dir : Text) (Plain : Text → Type 0) where
  abbrev pub kind : Text → D.State → Option Bool
  kind path d = kind_at D (file_path data_dir path) d

  -- What a listing says of an entry is so: there is a directory that goes less deep, or a file.
  abbrev pub Entry : Bool → (Text → Type 0) → Text → D.State → Type 0
  Entry true deeper path d = deeper path
  Entry false deeper path d = kind path d ≡ some false

  -- A directory whose tree is no deeper than this, and whose names go into URLs as they are.
  abbrev pub Within : ℕ → Text → D.State → Type 0
  Within zero path d = ⊥
  Within (suc depth) path d =
      (kind path d ≡ some true)
      × Plain path
      × (entries : List RemoteEntry) × (list_directory_contents D data_dir path d ≡ some entries)
      × Distinct entries
      × All
          (λ entry.
            Simple entry.name
            × Plain (joined path entry.name)
            × Entry (is_directory entry) (λ child. Within depth child d) (joined path entry.name) d)
          entries

  abbrev pub Listed : ℕ → Text → D.State → RemoteEntry → Type 0
  Listed depth path d entry =
      Simple entry.name
      × Plain (joined path entry.name)
      × Entry (is_directory entry) (λ child. Within depth child d) (joined path entry.name) d

  module _ (p : Text) (d after : D.State) (R : Removed D (file_path data_dir p) d after) where
    below_apart :
        (q name : Text)
        → Simple name
        → Disjoint (file_path data_dir p) (file_path data_dir q)
        → Disjoint (file_path data_dir p) (file_path data_dir (joined q name))
    below_apart q name simple apart =
        rw joined_assoc at
          (Disjoint-child (file_path data_dir p) (file_path data_dir q) name simple apart)

    listed_same :
        (q : Text)
        → Disjoint (file_path data_dir p) (file_path data_dir q)
        → list_directory_contents D data_dir q after ≡ list_directory_contents D data_dir q d
    unfolding list_directory_contents
    listed_same q apart = rw (R.lists (file_path data_dir q) apart) refl

    Entry-other :
        (b : Bool) (deeper deeper' : Text → Type 0) (q : Text)
        → Disjoint (file_path data_dir p) (file_path data_dir q)
        → (deeper q → deeper' q)
        → Entry b deeper q d
        → Entry b deeper' q after
    Entry-other true deeper deeper' q apart f h = f h
    Entry-other false deeper deeper' q apart f h = R.kinds (file_path data_dir q) apart.0 ∙ h

    -- What was removed elsewhere leaves a tree as it was.
    Within-other :
        (depth : ℕ) (q : Text)
        → Disjoint (file_path data_dir p) (file_path data_dir q)
        → Within depth q d
        → Within depth q after
    Within-other zero q apart h = elim h [ ]
    Within-other (suc depth) q apart (dir, plain, entries, listed, distinct, all) = (
      R.kinds (file_path data_dir q) apart.0 ∙ dir,
      plain,
      entries,
      listed_same q apart ∙ listed,
      distinct,
      All-map _ _ entries
          (λ entry h.
            let apart' = below_apart q entry.name h.0 apart in
            (
              h.0,
              h.1,
              Entry-other (is_directory entry) (λ child. Within depth child d)
                  (λ child. Within depth child after) (joined q entry.name) apart'
                  (Within-other depth (joined q entry.name) apart') h.2,
            ))
          all,
    )

  -- What the listing says of an entry stays so when its sibling is removed.
  pub Listed-other :
      (depth : ℕ) (p name : Text) (d after : D.State) (other : RemoteEntry)
      → Simple name
      → Removed D (file_path data_dir (joined p name)) d after
      → name ≢ other.name
      → Listed depth p d other
      → Listed depth p after other
  Listed-other depth p name d after other simple R ne h =
      let apart : Disjoint (file_path data_dir (joined p name))
          (file_path data_dir (joined p other.name)) =
        rw (joined_assoc data_dir p name, joined_assoc data_dir p other.name) at
          (Disjoint-siblings (file_path data_dir p) name other.name simple h.0 ne) in
      (
        h.0,
        h.1,
        Entry-other (joined p name) d after R (is_directory other) (λ child. Within depth child d)
            (λ child. Within depth child after) (joined p other.name) apart
            (Within-other (joined p name) d after R depth (joined p other.name) apart) h.2,
      )

-- What `delete_file` does with what is there.
pub delete_file-Removed :
    (D : Disk) (T : IsTree D) (data_dir p : Text) (h : Headers) (now : ℕ) (s : ServerState D)
    (b : Bool)
    → kind_at D (file_path data_dir p) s.disk ≡ some b
    → let r = delete_file D data_dir p h now s in
      (r.0 ≡ 200) × Removed D (file_path data_dir p) s.disk r.1.disk
unfolding delete_file
delete_file-Removed D T data_dir p h now s b there =
    elim (Option-cases (D.metadata (file_path data_dir p) s.disk)) [
      | inl missing ↦ let impossible = sym (ap kind_of missing) ∙ there in cc
      | inr ((metadata, found)) ↦ elim (Bool-cases metadata.is_dir) [
        | inl dir ↦
            let done =
              T.remove_dir_all_lem (file_path data_dir p) s.disk (ap kind_of found ∙ ap some dir) in
            rw (found, dir, done.0) (refl, done.1)
        | inr file ↦
            let done =
              T.remove_file_lem (file_path data_dir p) s.disk (ap kind_of found ∙ ap some file) in
            rw (found, file, done.0) (refl, done.1)
      ]
    ]
