-- ===== src/Server/Uploads/Interleaving.antt =====
-- Uploads to different files, in whatever order the server lets them go on.
use rust_remote_fs.Prelude.{
  ℕ, zero, suc, ◌≡◌, ◌≢◌, refl, sym, ap, ◌∙◌, Bool-cases, inl, inr, none, some, List, [], ◌∷◌, ◌++◌,
  Text, bytes, arith, get_elem?, subst,
}
use mathlib.Core.Option.{some-injective}
use mathlib.Core.List.{append-nil, append_assoc, append_cancel_left}
use rust_remote_fs.Wire.{Bytes}
use rust_remote_fs.Server.Disk.{Disk, IsDisk}
use rust_remote_fs.Server.Handlers.{ServerState, file_path}
use rust_remote_fs.Server.Handlers.PutFile.{body_bytes}
use rust_remote_fs.Server.Uploads.{
  PutRequest, Stage, arrived, reading, writing, answered, Upload, start, advance, advance_at,
  interleave,
}

module _ (Clean : Text → Type 0) where
  -- Paths that differ, each to one file of its own: they lead to different files.
  abbrev pub Differ : Text → Text → Type 0
  Differ p q = Clean p × Clean q × (p ≢ q)

  abbrev AllApart : Text → List Upload → Type 0
  AllApart path [] = Unit
  AllApart path ((r, stage) ∷ uploads) = Differ path r.path × AllApart path uploads

  -- No two of the uploads go to one file.
  abbrev Apart : List Upload → Type 0
  Apart [] = Unit
  Apart ((r, stage) ∷ uploads) = AllApart r.path uploads × Apart uploads

  -- The same of the requests.
  abbrev AllDistinct : Text → List PutRequest → Type 0
  AllDistinct path [] = Unit
  AllDistinct path (r ∷ requests) = Differ path r.path × AllDistinct path requests

  abbrev pub DistinctFiles : List PutRequest → Type 0
  DistinctFiles [] = Unit
  DistinctFiles (r ∷ requests) = AllDistinct r.path requests × DistinctFiles requests

  AllApart-start :
      (path : Text) (requests : List PutRequest)
      → AllDistinct path requests
      → AllApart path (start requests)
  AllApart-start path [] h = tt
  AllApart-start path (r ∷ requests) (ne, h) = (ne, AllApart-start path requests h)

  Apart-start : (requests : List PutRequest) → DistinctFiles requests → Apart (start requests)
  Apart-start [] h = tt
  Apart-start (r ∷ requests) (ne, h) = (AllApart-start r.path requests ne, Apart-start requests h)

file_path_cancel : (data_dir p q : Text) → p ≢ q → file_path data_dir p ≢ file_path data_dir q
file_path_cancel data_dir p q ne e = ne (
    append_cancel_left (bytes "/") p q
      (append_cancel_left data_dir (bytes "/" ++ p) (bytes "/" ++ q) e))

module _ (D : Disk) (L : IsDisk D) (data_dir : Text) where
  -- The path leads to one file of its own.
  abbrev pub CleanPath : Text → Type 0
  CleanPath path = L.Clean (file_path data_dir path)

  -- What the disk has taken of an upload that has come so far.
  abbrev Holds : PutRequest → Stage → ServerState D → Type 0
  Holds r arrived s = Unit
  Holds r (reading frames) s =
      (done : Bytes) × (L.content (file_path data_dir r.path) s.disk ≡ some done)
      × (done ++ body_bytes frames ≡ body_bytes r.frames)
  Holds r (writing chunk frames) s =
      (done : Bytes) × (L.content (file_path data_dir r.path) s.disk ≡ some done)
      × (done ++ (chunk ++ body_bytes frames) ≡ body_bytes r.frames)
  Holds r (answered status) s =
      status ≡ 200 → L.content (file_path data_dir r.path) s.disk ≡ some (body_bytes r.frames)

  abbrev AllHold : List Upload → ServerState D → Type 0
  AllHold [] s = Unit
  AllHold ((r, stage) ∷ uploads) s = Holds r stage s × AllHold uploads s

  Holds-advance :
      (r : PutRequest) (stage : Stage) (s : ServerState D)
      → Holds r stage s
      → Holds r (advance D data_dir r stage s).0 (advance D data_dir r stage s).1
  unfolding advance body_bytes
  Holds-advance r arrived s h =
      let file = file_path data_dir r.path in
      elim (Bool-cases (D.create file s.disk).0) [
        | inl opened ↦ rw opened ([], L.create-content file s.disk opened, refl)
        | inr failed ↦ rw failed (λ e. absurd (omega (arith, e)))
      ]
  Holds-advance r (reading []) s (done, stored, whole) =
      λ e. stored ∙ ap some (sym (append-nil done) ∙ whole)
  Holds-advance r (reading (none ∷ frames)) s h = λ e. absurd (omega (arith, e))
  Holds-advance r (reading (some none ∷ frames)) s h = h
  Holds-advance r (reading (some (some chunk) ∷ frames)) s h = h
  Holds-advance r (writing chunk frames) s (done, stored, whole) =
      let file = file_path data_dir r.path in
      elim (Bool-cases (D.write_all file chunk s.disk).0) [
        | inl written ↦ rw written (
          done ++ chunk,
          L.write_all-content file chunk done s.disk written stored,
          append_assoc done chunk (body_bytes frames) ∙ whole,
        )
        | inr failed ↦ rw failed (λ e. absurd (omega (arith, e)))
      ]
  Holds-advance r (answered status) s h = h

  -- A call writes to its own file only.
  advance-other :
      (r : PutRequest) (stage : Stage) (s : ServerState D) (other : Text)
      → Differ CleanPath r.path other
      → L.content (file_path data_dir other) (advance D data_dir r stage s).1.disk
        ≡ L.content (file_path data_dir other) s.disk
  unfolding advance
  advance-other r arrived s other ne =
      let file = file_path data_dir r.path in
      let same =
        L.create-other file (file_path data_dir other) s.disk ne.0 ne.1
          (file_path_cancel data_dir r.path other ne.2) in
      elim (Bool-cases (D.create file s.disk).0) [
        | inl opened ↦ rw opened same
        | inr failed ↦ rw failed same
      ]
  advance-other r (reading []) s other ne = refl
  advance-other r (reading (none ∷ frames)) s other ne = refl
  advance-other r (reading (some none ∷ frames)) s other ne = refl
  advance-other r (reading (some (some chunk) ∷ frames)) s other ne = refl
  advance-other r (writing chunk frames) s other ne =
      let file = file_path data_dir r.path in
      let same =
        L.write_all-other file (file_path data_dir other) chunk s.disk ne.0 ne.1
          (file_path_cancel data_dir r.path other ne.2) in
      elim (Bool-cases (D.write_all file chunk s.disk).0) [
        | inl written ↦ rw written same
        | inr failed ↦ rw failed same
      ]
  advance-other r (answered status) s other ne = refl

  Holds-same :
      (r : PutRequest) (stage : Stage) (s t : ServerState D)
      → L.content (file_path data_dir r.path) t.disk ≡ L.content (file_path data_dir r.path) s.disk
      → Holds r stage s
      → Holds r stage t
  Holds-same r arrived s t same h = h
  Holds-same r (reading frames) s t same (done, stored, whole) = (done, same ∙ stored, whole)
  Holds-same r (writing chunk frames) s t same (done, stored, whole) = (done, same ∙ stored, whole)
  Holds-same r (answered status) s t same h = λ e. same ∙ h e

  AllHold-other :
      (path : Text) (s t : ServerState D)
      → ((other : Text)
          → Differ CleanPath path other
          → L.content (file_path data_dir other) t.disk
            ≡ L.content (file_path data_dir other) s.disk)
      → (uploads : List Upload) → AllApart CleanPath path uploads
      → AllHold uploads s
      → AllHold uploads t
  AllHold-other path s t same [] apart h = tt
  AllHold-other path s t same ((r, stage) ∷ uploads) (ne, apart) (h, hs) =
      (Holds-same r stage s t (same r.path ne) h, AllHold-other path s t same uploads apart hs)

  AllApart-advance_at :
      (path : Text) (i : ℕ) (uploads : List Upload) (s : ServerState D)
      → AllApart CleanPath path uploads
      → AllApart CleanPath path (advance_at D data_dir i uploads s).0
  unfolding advance_at
  AllApart-advance_at path i [] s apart = tt
  AllApart-advance_at path zero ((r, stage) ∷ uploads) s apart = apart
  AllApart-advance_at path (suc i) ((r, stage) ∷ uploads) s (ne, apart) =
      (ne, AllApart-advance_at path i uploads s apart)

  Apart-advance_at :
      (i : ℕ) (uploads : List Upload) (s : ServerState D)
      → Apart CleanPath uploads
      → Apart CleanPath (advance_at D data_dir i uploads s).0
  unfolding advance_at
  Apart-advance_at i [] s apart = tt
  Apart-advance_at zero ((r, stage) ∷ uploads) s apart = apart
  Apart-advance_at (suc i) ((r, stage) ∷ uploads) s (ne, apart) =
      (AllApart-advance_at r.path i uploads s ne, Apart-advance_at i uploads s apart)

  advance_at-other :
      (path : Text) (i : ℕ) (uploads : List Upload) (s : ServerState D)
      → AllApart CleanPath path uploads
      → L.content (file_path data_dir path) (advance_at D data_dir i uploads s).1.disk
        ≡ L.content (file_path data_dir path) s.disk
  unfolding advance_at
  advance_at-other path i [] s apart = refl
  advance_at-other path zero ((r, stage) ∷ uploads) s (ne, apart) =
      advance-other r stage s path (ne.1, ne.0, λ e. ne.2 (sym e))
  advance_at-other path (suc i) ((r, stage) ∷ uploads) s (ne, apart) =
      advance_at-other path i uploads s apart

  AllHold-advance_at :
      (i : ℕ) (uploads : List Upload) (s : ServerState D)
      → Apart CleanPath uploads
      → AllHold uploads s
      → AllHold (advance_at D data_dir i uploads s).0 (advance_at D data_dir i uploads s).1
  unfolding advance_at
  AllHold-advance_at i [] s apart h = tt
  AllHold-advance_at zero ((r, stage) ∷ uploads) s (ne, apart) (h, hs) = (
    Holds-advance r stage s h,
    AllHold-other r.path s (advance D data_dir r stage s).1 (advance-other r stage s) uploads ne hs,
  )
  AllHold-advance_at (suc i) ((r, stage) ∷ uploads) s (ne, apart) (h, hs) = (
    Holds-same r stage s (advance_at D data_dir i uploads s).1
        (advance_at-other r.path i uploads s ne) h,
    AllHold-advance_at i uploads s apart hs,
  )

  AllHold-interleave :
      (turns : List ℕ) (uploads : List Upload) (s : ServerState D)
      → Apart CleanPath uploads
      → AllHold uploads s
      → AllHold (interleave D data_dir turns uploads s).0 (interleave D data_dir turns uploads s).1
  unfolding interleave
  AllHold-interleave [] uploads s apart h = h
  AllHold-interleave (i ∷ turns) uploads s apart h =
      AllHold-interleave turns (advance_at D data_dir i uploads s).0
        (advance_at D data_dir i uploads s).1 (Apart-advance_at i uploads s apart)
        (AllHold-advance_at i uploads s apart h)

  AllHold-at :
      (uploads : List Upload) (s : ServerState D)
      → AllHold uploads s
      → (i : ℕ) (r : PutRequest) (stage : Stage) → get_elem? uploads i ≡ some (r, stage)
      → Holds r stage s
  AllHold-at [] s h i r stage e = cc e
  AllHold-at ((q, done) ∷ uploads) s (h, hs) zero r stage e =
      let same = some-injective (q, done) (r, stage) e in subst (λ u. Holds u.0 u.1 s) same h
  AllHold-at ((q, done) ∷ uploads) s (h, hs) (suc i) r stage e = AllHold-at uploads s hs i r stage e

  AllHold-start : (requests : List PutRequest) (s : ServerState D) → AllHold (start requests) s
  AllHold-start [] s = tt
  AllHold-start (r ∷ requests) s = (tt, AllHold-start requests s)

module _ (D : Disk) (L : IsDisk D) (data_dir : Text) (requests : List PutRequest) (turns : List ℕ)
    (s : ServerState D) where
  -- Uploads to clean paths that differ, cut at each `await` and served at the same time on a disk
  -- that takes what it reports to take: in whatever order the server lets them go on, and however
  -- far the others have come, the file of each one that has been answered with 200 holds, if the
  -- writes that tokio has taken for it are done without an error, the bytes of its own body.
  pub interleave-content :
      DistinctFiles (CleanPath D L data_dir) requests
      → (i : ℕ) (r : PutRequest)
      → get_elem? (interleave D data_dir turns (start requests) s).0 i ≡ some (r, answered 200)
      → L.Settled
          (file_path data_dir r.path)
          (interleave D data_dir turns (start requests) s).1.disk
      → L.stored (file_path data_dir r.path) (interleave D data_dir turns (start requests) s).1.disk
        ≡ some (body_bytes r.frames)
  interleave-content distinct i r done settled =
      L.settled_lem (file_path data_dir r.path)
        (interleave D data_dir turns (start requests) s).1.disk settled
      ∙ AllHold-at D L data_dir (interleave D data_dir turns (start requests) s).0
          (interleave D data_dir turns (start requests) s).1
          (AllHold-interleave D L data_dir turns (start requests) s
            (Apart-start (CleanPath D L data_dir) requests distinct)
            (AllHold-start D L data_dir requests s))
          i r (answered 200) done refl
