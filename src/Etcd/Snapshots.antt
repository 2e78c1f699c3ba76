-- ===== src/Etcd/Snapshots.antt =====
-- The retention of etcd snapshots: snapshotRetention of pkg/etcd/snapshot.go for the local directory,
-- SnapshotRetention of pkg/etcd/s3/s3.go, and retainMissingETCDSnapshotFile. What the standard library
-- and the stores do is a parameter: the sorting, the parsing of a name, the removal of a file.
pub mod Retention
use k8e.Common.{
  ℕ, zero, suc, ◌+◌, ◌-◌, ◌*◌, ◌/◌, ◌%◌, ◌^◌, ◌≤◌, ◌<◌, String, ◌≡◌, refl, sym, ap, ◌∙◌, ◌≢◌, ◌↔◌,
  ◌⊎◌, inl, inr, Bool, true, false, ◌&&◌, ◌||◌, not, Option, none, some, List, [], ◌∷◌, ◌++◌, map,
  arith, str_eq, eq_iff, ltb, leb, ◌==◌, if◌then◌else◌, ltb→lt, lt→ltb, leb→le, ==_iff, Bool-cases,
  Option-cases, length, get_elem?, replicate, select, length-append, length-replicate, All,
}
use k8e.Common.Int.{
  ℤ, pos, negsuc, pos_part, neg_part, sub_ℕ, ◌+ℤ◌, ◌-ℤ◌, ◌*ℤ◌, ◌≤ℤ◌, ◌<ℤ◌, ltb_ℤ, leb_ℤ, eqb_ℤ,
  div_ℤ, wrap64, IsInt64, wrap64-IsInt64, wrap64_fits, +ℤ_parts, -ℤ_parts, eq_of_parts, int_laws,
}

-- A file that was found, or an S3 object: its name and the time of its snapshot.
pub record Snapshot : Type 0 where
  pub name : String
  pub created_at : ℤ

-- A file of the directory: its name and its modification time in seconds.
pub record FileInfo : Type 0 where
  pub name : String
  pub mod_time : ℤ

pub data Removal : Type 0 where
  gone absent failed : Removal

-- files[:n] and files[n:]
unfoldable pub first_files : ℕ → List Snapshot → List Snapshot
first_files zero fs = []
first_files (suc n) [] = []
first_files (suc n) (f ∷ fs) = f ∷ first_files n fs

unfoldable pub files_from : ℕ → List Snapshot → List Snapshot
files_from zero fs = fs
files_from (suc n) [] = []
files_from (suc n) (f ∷ fs) = files_from n fs

-- The names that are deleted, up to the first error, and whether there was none.
unfoldable pub delete_files : (String → Bool) → List Snapshot → List String × Bool
delete_files deletes [] = ([], true)
delete_files deletes (f ∷ fs) =
    let (names, ok) = delete_files deletes fs in
    if deletes f.name then (f.name ∷ names, ok) else ([], false)

-- The retention once the files are listed.
unfoldable pub prune_files :
    (List Snapshot → List Snapshot) → (String → Bool) → ℕ → List Snapshot → List String × Bool
unfolding files_from delete_files
prune_files sort deletes retention files =
    if leb (length files) retention
    then ([], true)
    else delete_files deletes (files_from retention (sort files))

-- The file as a snapshot, where the end of its name gives a time or else its modification does.
unfoldable pub local_snapshot : (String → Option ℤ) → FileInfo → Snapshot
local_snapshot parse f = record {
  name = f.name;
  created_at = elim (parse f.name) [ none ↦ f.mod_time | some t ↦ t ];
}

unfoldable pub local_snapshots :
    (String → Bool) → (String → Option ℤ) → List FileInfo → List Snapshot
unfolding local_snapshot
local_snapshots has_prefix parse [] = []
local_snapshots has_prefix parse (f ∷ fs) =
    let rest = local_snapshots has_prefix parse fs in
    if has_prefix f.name then local_snapshot parse f ∷ rest else rest

-- Whether a local snapshot goes: its file must be there, its metadata need not.
unfoldable pub deletes_local : (String → Removal) → (String → Removal) → String → Bool
deletes_local remove remove_metadata name = elim (remove name) [
  | Removal.gone ↦ elim (remove_metadata name) [ Removal.failed ↦ false | _ ↦ true ]
  | _ ↦ false
]

-- snapshotRetention; `none` where the walk over the directory fails.
unfoldable pub snapshot_retention :
    (List Snapshot → List Snapshot)
    → (String → Bool)
    → (String → Option ℤ)
    → (String → Removal)
    → (String → Removal)
    → ℤ
    → Option (List FileInfo)
    → List String × Bool
unfolding prune_files local_snapshots deletes_local
snapshot_retention sort has_prefix parse remove remove_metadata retention walked =
    if ltb_ℤ retention (pos 1) then ([], true) else elim walked [
      | none ↦ ([], false)
      | some files ↦
          prune_files sort (deletes_local remove remove_metadata) (pos_part retention)
            (local_snapshots has_prefix parse files)
    ]

-- An S3 object under the prefix, and whether it lies in the folder of the metadata.
pub record S3Object : Type 0 where
  pub base : String
  pub in_metadata : Bool
  pub last_modified : ℤ

unfoldable pub s3_snapshots : List S3Object → List Snapshot
s3_snapshots [] = []
s3_snapshots (o ∷ os) =
    let rest = s3_snapshots os in
    if o.in_metadata then rest else record { name = o.base; created_at = o.last_modified } ∷ rest

-- An object that is not there any more counts as deleted.
unfoldable pub deletes_s3 : (String → Removal) → String → Bool
deletes_s3 remove name = elim (remove name) [ Removal.failed ↦ false | _ ↦ true ]

-- SnapshotRetention of the S3 client; `none` where the listing fails.
unfoldable pub s3_snapshot_retention :
    (List Snapshot → List Snapshot)
    → (String → Removal)
    → ℤ
    → Option (List S3Object)
    → List String × Bool
unfolding prune_files s3_snapshots deletes_s3
s3_snapshot_retention sort remove retention listed =
    if ltb_ℤ retention (pos 1) then ([], true) else elim listed [
      | none ↦ ([], false)
      | some os ↦ prune_files sort (deletes_s3 remove) (pos_part retention) (s3_snapshots os)
    ]

-- What retainMissingETCDSnapshotFile reads of an ETCDSnapshotFile, its times in nanoseconds.
pub record EtcdSnapshotFile : Type 0 where
  pub snapshot_name : String
  pub error_time : Option ℤ
  pub is_s3 : Bool
  pub created_at : ℤ

unfoldable pub is_within : ℤ → ℤ → Option ℤ → Bool
is_within now ttl none = false
is_within now ttl (some t) = ltb_ℤ now (t +ℤ ttl)

-- retainMissingETCDSnapshotFile, with the names that the request has deleted.
unfoldable pub retain_missing : (String → Bool) → EtcdSnapshotFile → ℤ → Bool
unfolding is_within
retain_missing deleted f now =
    if deleted f.snapshot_name
    then false
    else (is_within now (pos 86_400_000_000_000) f.error_time
        || f.is_s3 && ltb_ℤ now (f.created_at +ℤ pos 60_000_000_000))
