-- ===== src/Etcd/Snapshots/Retention.antt =====
-- The newest snapshots stay.
use k8e.Common.{
  ℕ, zero, suc, ◌≤◌, String, ◌≡◌, refl, sym, ap, ◌∙◌, ◌⊎◌, inl, inr, Bool, true, false, Option,
  some, List, [], ◌∷◌, ◌++◌, arith, leb, leb→le, Bool-cases, length, select, All,
}
use k8e.Common.Int.{ℤ, pos, pos_part, ◌≤ℤ◌, ltb_ℤ}
use k8e.Etcd.Snapshots.{
  Snapshot, first_files, files_from, delete_files, prune_files, Removal, FileInfo, local_snapshots,
  deletes_local, snapshot_retention,
}

-- Newest first.
abbrev pub IsNewestFirst : List Snapshot → Type 0
IsNewestFirst [] = Unit
IsNewestFirst (f ∷ fs) = All (λ g. g.created_at ≤ℤ f.created_at) fs × IsNewestFirst fs

-- What sort.Slice promises for the order that the code gives it: the same files, newest first.
pub record IsSort (sort : List Snapshot → List Snapshot) : Type 0 where
  pub same_files :
      (p : Snapshot → Bool) (fs : List Snapshot)
      → length (select p (sort fs)) ≡ length (select p fs)
  pub ordered : (fs : List Snapshot) → IsNewestFirst (sort fs)

select_all : (fs : List Snapshot) → select (λ f. true) fs ≡ fs
select_all [] = refl
select_all (f ∷ fs) = ap (λ r. f ∷ r) (select_all fs)

halves : (n : ℕ) (fs : List Snapshot) → first_files n fs ++ files_from n fs ≡ fs
unfolding first_files files_from
halves zero fs = refl
halves (suc n) [] = refl
halves (suc n) (f ∷ fs) = ap (λ r. f ∷ r) (halves n fs)

length-first_files : (n : ℕ) (fs : List Snapshot) → n ≤ length fs → length (first_files n fs) ≡ n
unfolding first_files
length-first_files zero fs h = refl
length-first_files (suc n) [] h = omega arith
length-first_files (suc n) (f ∷ fs) h = ap suc (length-first_files n fs (omega arith))

from_All : (P : Snapshot → Type 0) (n : ℕ) (fs : List Snapshot) → All P fs → All P (files_from n fs)
unfolding files_from
from_All P zero fs all = all
from_All P (suc n) [] all = all
from_All P (suc n) (f ∷ fs) (h, all) = from_All P n fs all

newer_lem :
    (n : ℕ) (fs : List Snapshot)
    → IsNewestFirst fs
    → All (λ k. All (λ g. g.created_at ≤ℤ k.created_at) (files_from n fs)) (first_files n fs)
unfolding first_files files_from
newer_lem zero fs h = tt
newer_lem (suc n) [] h = tt
newer_lem (suc n) (f ∷ fs) (newest, h) =
    (from_All (λ g. g.created_at ≤ℤ f.created_at) n fs newest, newer_lem n fs h)

unfoldable pub names_of : List Snapshot → List String
names_of [] = []
names_of (f ∷ fs) = f.name ∷ names_of fs

delete_files_lem :
    (deletes : String → Bool) (fs : List Snapshot)
    → (delete_files deletes fs).1 ≡ true
    → (delete_files deletes fs).0 ≡ names_of fs
unfolding delete_files names_of
delete_files_lem deletes [] ok = refl
delete_files_lem deletes (f ∷ fs) ok = elim (Bool-cases (deletes f.name)) [
  | inr stays ↦ cc (rw stays at ok)
  | inl goes ↦ rw goes (ap (λ r. f.name ∷ r) (delete_files_lem deletes fs (rw goes at ok)))
]

-- What a retention of `limit` makes of files: those that stay and those that go.
pub record IsPruned (sort : List Snapshot → List Snapshot) (limit : ℕ) (files : List Snapshot)
    (deleted : List String) : Type 0 where
  pub kept : List Snapshot
  pub old : List Snapshot
  pub all_files : kept ++ old ≡ sort files
  pub names : deleted ≡ names_of old
  pub within : length kept ≤ limit
  -- No more goes than has to.
  pub enough : (old ≡ []) ⊎ (length kept ≡ limit)
  pub newer : All (λ k. All (λ g. g.created_at ≤ℤ k.created_at) old) kept

append_none : (fs : List Snapshot) → fs ++ [] ≡ fs
append_none [] = refl
append_none (f ∷ fs) = ap (λ r. f ∷ r) (append_none fs)

All-nothing :
    (fs : List Snapshot) → All (λ k. All (λ (g : Snapshot). g.created_at ≤ℤ k.created_at) []) fs
All-nothing [] = tt
All-nothing (f ∷ fs) = (tt, All-nothing fs)

length-sort :
    (sort : List Snapshot → List Snapshot) (fs : List Snapshot)
    → IsSort sort
    → length (sort fs) ≡ length fs
length-sort sort fs s =
    ap length (sym (select_all (sort fs))) ∙ s.same_files (λ f. true) fs ∙ ap length (select_all fs)

prune_files-IsPruned :
    (sort : List Snapshot → List Snapshot) (deletes : String → Bool) (limit : ℕ)
    (files : List Snapshot)
    → IsSort sort
    → (prune_files sort deletes limit files).1 ≡ true
    → IsPruned sort limit files (prune_files sort deletes limit files).0
unfolding prune_files names_of
prune_files-IsPruned sort deletes limit files s ok = elim (Bool-cases (leb (length files) limit)) [
  | inl few ↦
      rw (few, prune_files)
        (record {
          kept = sort files;
          old = [];
          all_files = append_none (sort files);
          names = refl;
          within = omega (arith, leb→le (length files) limit few, length-sort sort files s);
          enough = inl refl;
          newer = All-nothing (sort files);
        })
  | inr many ↦
      let more : limit ≤ length (sort files) = ground (arith, length-sort sort files s) in
      let here : length (first_files limit (sort files)) ≡ limit =
        length-first_files limit (sort files) more in
      rw (many, prune_files)
        (record {
          kept = first_files limit (sort files);
          old = files_from limit (sort files);
          all_files = halves limit (sort files);
          names =
              delete_files_lem deletes (files_from limit (sort files))
                (rw (many, prune_files) at ok);
          within = omega (arith, here);
          enough = inr here;
          newer = newer_lem limit (sort files) (s.ordered files);
        })
]

-- A local retention of at least one that ends without an error deletes the surplus and no more: of the
-- files with the prefix as many are kept as the retention allows, none older than one that is deleted,
-- and what it reports are the names of the deleted.
pub snapshot_retention-IsPruned :
    (sort : List Snapshot → List Snapshot) (has_prefix : String → Bool) (parse : String → Option ℤ)
    (remove remove_metadata : String → Removal) (retention : ℤ) (files : List FileInfo)
    → IsSort sort
    → ltb_ℤ retention (pos 1) ≡ false
    → (snapshot_retention sort has_prefix parse remove remove_metadata retention (some files)).1
      ≡ true
    → IsPruned sort
        (pos_part retention)
        (local_snapshots has_prefix parse files)
        (snapshot_retention sort has_prefix parse remove remove_metadata retention (some files)).0
unfolding snapshot_retention
snapshot_retention-IsPruned sort has_prefix parse remove remove_metadata retention files s positive
      ok =
    rw (positive, snapshot_retention)
      (prune_files-IsPruned sort (deletes_local remove remove_metadata) (pos_part retention)
        (local_snapshots has_prefix parse files) s (rw (positive, snapshot_retention) at ok))
