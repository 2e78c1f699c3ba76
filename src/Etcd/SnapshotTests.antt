-- ===== src/Etcd/SnapshotTests.antt =====
-- The retention at a concrete input, with an insertion sort.
use k8e.Common.{
  ◌≡◌, refl, inl, inr, Bool, true, none, List, [], ◌∷◌, arith, if◌then◌else◌, Bool-cases, length,
  select, All,
}
use k8e.Common.Int.{ℤ, pos, ◌≤ℤ◌, leb_ℤ}
use k8e.Etcd.Snapshots.{Snapshot, FileInfo, Removal, snapshot_retention, local_snapshots}
use k8e.Etcd.Snapshots.Retention.{IsNewestFirst, IsSort, IsPruned, snapshot_retention-IsPruned}

unfoldable put_newest : Snapshot → List Snapshot → List Snapshot
put_newest f [] = f ∷ []
put_newest f (g ∷ gs) =
    let rest = put_newest f gs in if leb_ℤ g.created_at f.created_at then f ∷ g ∷ gs else g ∷ rest

unfoldable sort_newest : List Snapshot → List Snapshot
unfolding put_newest
sort_newest [] = []
sort_newest (f ∷ fs) = put_newest f (sort_newest fs)

select-put_newest :
    (p : Snapshot → Bool) (f : Snapshot) (fs : List Snapshot)
    → length (select p (put_newest f fs)) ≡ length (select p (f ∷ fs))
unfolding put_newest
select-put_newest p f [] = refl
select-put_newest p f (g ∷ gs) = ground (arith, select-put_newest p f gs)

select-sort_newest :
    (p : Snapshot → Bool) (fs : List Snapshot)
    → length (select p (sort_newest fs)) ≡ length (select p fs)
unfolding sort_newest
select-sort_newest p [] = refl
select-sort_newest p (f ∷ fs) =
    ground (arith, select-put_newest p f (sort_newest fs), select-sort_newest p fs)

put_newest-All :
    (b : ℤ) (f : Snapshot) (fs : List Snapshot)
    → f.created_at ≤ℤ b
    → All (λ (g : Snapshot). g.created_at ≤ℤ b) fs
    → All (λ (g : Snapshot). g.created_at ≤ℤ b) (put_newest f fs)
unfolding put_newest
put_newest-All b f [] h all = (h, tt)
put_newest-All b f (g ∷ gs) h (own, all) = elim (Bool-cases (leb_ℤ g.created_at f.created_at)) [
  | inl le ↦ rw le (h, (own, all))
  | inr gt ↦ rw gt (own, put_newest-All b f gs h all)
]

All-trans :
    (a b : ℤ) (fs : List Snapshot)
    → a ≤ℤ b
    → All (λ (g : Snapshot). g.created_at ≤ℤ a) fs
    → All (λ (g : Snapshot). g.created_at ≤ℤ b) fs
All-trans a b [] h all = tt
All-trans a b (f ∷ fs) h (own, all) = (omega arith, All-trans a b fs h all)

put_newest-IsNewestFirst :
    (f : Snapshot) (fs : List Snapshot) → IsNewestFirst fs → IsNewestFirst (put_newest f fs)
unfolding put_newest
put_newest-IsNewestFirst f [] h = (tt, tt)
put_newest-IsNewestFirst f (g ∷ gs) (newest, h) =
    elim (Bool-cases (leb_ℤ g.created_at f.created_at)) [
      | inl le ↦
          let below : g.created_at ≤ℤ f.created_at = ground arith in
          rw le ((below, All-trans g.created_at f.created_at gs below newest), (newest, h))
      | inr gt ↦
          let above : f.created_at ≤ℤ g.created_at = ground arith in
          rw gt (put_newest-All g.created_at f gs above newest, put_newest-IsNewestFirst f gs h)
    ]

sort_newest-IsNewestFirst : (fs : List Snapshot) → IsNewestFirst (sort_newest fs)
unfolding sort_newest
sort_newest-IsNewestFirst [] = tt
sort_newest-IsNewestFirst (f ∷ fs) =
    put_newest-IsNewestFirst f (sort_newest fs) (sort_newest-IsNewestFirst fs)

sort_newest-IsSort : IsSort sort_newest
sort_newest-IsSort = record { same_files = select-sort_newest; ordered = sort_newest-IsNewestFirst }

abbrev directory : List FileInfo
directory =
    record { name = "etcd-snapshot-a-100"; mod_time = pos 100 }
    ∷ record { name = "etcd-snapshot-a-300"; mod_time = pos 300 }
    ∷ record { name = "etcd-snapshot-a-200"; mod_time = pos 200 }
    ∷ []

snapshot_retention-IsPruned_example :
    IsPruned sort_newest 2
      (local_snapshots (λ name. true) (λ name. none) directory)
      ("etcd-snapshot-a-100" ∷ [])
unfolding snapshot_retention sort_newest
snapshot_retention-IsPruned_example =
    snapshot_retention-IsPruned sort_newest (λ name. true) (λ name. none) (λ name. Removal.gone)
      (λ name. Removal.absent) (pos 2) directory sort_newest-IsSort refl refl
