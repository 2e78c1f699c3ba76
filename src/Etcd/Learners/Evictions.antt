-- ===== src/Etcd/Learners/Evictions.antt =====
-- Which learners are evicted: one that has made progress is not for five minutes, and one that makes
-- none is then.
use k8e.Common.{
  ℕ, ◌+◌, ◌-◌, ◌≤◌, ◌<◌, ◌≡◌, refl, ap, ◌⊎◌, inl, inr, Bool, true, false, ◌&&◌, Option, none, some,
  List, [], ◌∷◌, ◌++◌, arith, str_eq, eq_iff, ltb, ◌==◌, ==_iff, Bool-cases, All,
}
use k8e.Etcd.Learners.{
  Member, LearnerProgress, Answers, Verdict, removed, removal_failed, Tracking,
  learner_max_stall_time, progress_of, first_status, update_progress, set_learner_progress,
  evict_or_store, track_learner_progress, track_members, manage_learners,
}

-- A pass at a time, with etcd's answers.
pub record Pass : Type 0 where
  pub now : ℕ
  pub answers : Answers

module _ (encode : ℕ → ℕ) where
  -- The passes over a cluster with one learner.
  unfoldable pub passes : Member → List Pass → LearnerProgress → LearnerProgress × List Verdict
  unfolding manage_learners
  passes m [] stored = (stored, [])
  passes m (p ∷ ps) stored =
      let (stored', verdicts) = manage_learners encode p.answers p.now (m ∷ []) stored in
      let (stored'', more) = passes m ps stored' in (stored'', verdicts ++ more)

-- The text of a time keeps whole seconds.
pub record IsWholeSeconds (encode : ℕ → ℕ) : Type 0 where
  pub down : (t : ℕ) → encode t ≤ t
  pub near : (t : ℕ) → t < encode t + 1_000_000_000
  pub again : (t : ℕ) → encode (encode t) ≡ encode t

-- Whether a learner is to be removed.
abbrev pub is_removal : Verdict → Bool
is_removal removed = true
is_removal removal_failed = true
is_removal _ = false

pub own_lem :
    (p : LearnerProgress) (m : Member) (now : ℕ)
    → p.name ≡ m.name
    → p.id ≡ m.id
    → progress_of p m now ≡ p
unfolding progress_of
own_lem p m now named same = rw ((eq_iff p.name m.name).1 named, (==_iff p.id m.id).1 same) refl

module _ (encode : ℕ → ℕ) (seconds : IsWholeSeconds encode) (m : Member) where
  -- What is stored is about the learner, which has made progress at `u` or since.
  pub record IsRecent (u : ℕ) (p : LearnerProgress) : Type 0 where
    pub named : p.name ≡ m.name
    pub same_id : p.id ≡ m.id
    pub recent : u < p.last_progress + 1_000_000_000
    pub whole : encode p.last_progress ≡ p.last_progress

  -- The same of progress that is not stored yet.
  pub record IsFresh (u : ℕ) (p : LearnerProgress) : Type 0 where
    pub named : p.name ≡ m.name
    pub same_id : p.id ≡ m.id
    pub recent : u < encode p.last_progress + 1_000_000_000

  update-IsFresh :
      (u now : ℕ) (p : LearnerProgress) (o : Option ℕ)
      → u ≤ now
      → IsRecent u p
      → IsFresh u (update_progress p now o)
  unfolding update_progress
  update-IsFresh u now p none later r = record {
    named = r.named;
    same_id = r.same_id;
    recent = rw r.whole r.recent;
  }
  update-IsFresh u now p (some index) later r = elim (Bool-cases (ltb p.raft_applied_index index)) [
    | inr stalled ↦
        rw (stalled, update_progress)
          (record { named = r.named; same_id = r.same_id; recent = rw r.whole r.recent })
    | inl ahead ↦
        rw (ahead, update_progress)
          (record {
            named = r.named;
            same_id = r.same_id;
            recent = omega (arith, seconds.near now);
          })
  ]

  -- The end of a pass within the time that the learner has.
  evict_or_store-IsRecent :
      (u now : ℕ) (a : Answers) (t : Tracking)
      → now + 1_000_000_000 ≤ u + learner_max_stall_time
      → IsFresh u t.progress
      → (IsRecent u t.stored ⊎ (a.stores ≡ true))
      → IsRecent u (evict_or_store encode a now m t).0.stored
        × (is_removal (evict_or_store encode a now m t).1 ≡ false)
  unfolding evict_or_store set_learner_progress
  evict_or_store-IsRecent u now a t within f s =
      let kept : ltb learner_max_stall_time (now - t.progress.last_progress) ≡ false =
        ground (arith, seconds.down t.progress.last_progress, f.recent) in
      elim (Bool-cases a.stores) [
        | inl ok ↦
            rw (kept, ok, evict_or_store)
              (
                record {
                  named = f.named;
                  same_id = f.same_id;
                  recent = f.recent;
                  whole = seconds.again t.progress.last_progress;
                },
                refl,
              )
        | inr lost ↦ elim s [ inl r ↦ rw (kept, lost, evict_or_store) (r, refl) | inr ok ↦ cc ]
      ]

  -- A pass over the learner alone.
  abbrev pub track : Answers → ℕ → LearnerProgress → Tracking × Verdict
  track a now stored =
      track_learner_progress encode a now m (record { progress = stored; stored = stored })

  track-IsRecent :
      (u now : ℕ) (a : Answers) (stored : LearnerProgress)
      → u ≤ now
      → now + 1_000_000_000 ≤ u + learner_max_stall_time
      → IsRecent u stored
      → IsRecent u (track a now stored).0.stored × (is_removal (track a now stored).1 ≡ false)
  unfolding track_learner_progress
  track-IsRecent u now a stored later within r = elim (Bool-cases (a.promotes m.id)) [
    | inl voter ↦ rw (voter, track_learner_progress) (r, refl)
    | inr learner ↦
        rw (learner, track_learner_progress)
          (evict_or_store-IsRecent u now a
            (record {
              progress =
                  update_progress (progress_of stored m now) now
                    (first_status a.status_at m.client_urls);
              stored = stored;
            })
            within
            (rw (own_lem stored m now r.named r.same_id)
              (update-IsFresh u now stored (first_status a.status_at m.client_urls) later r))
            (inl r))
  ]

  alone_lem :
      (a : Answers) (now : ℕ) (stored : LearnerProgress)
      → m.is_learner ≡ true
      → manage_learners encode a now (m ∷ []) stored
        ≡ ((track a now stored).0.stored, (track a now stored).1 ∷ [])
  unfolding manage_learners track_members
  alone_lem a now stored learner = rw (learner, manage_learners, track_members) refl

  passes_lem :
      (p : Pass) (ps : List Pass) (stored : LearnerProgress)
      → m.is_learner ≡ true
      → (passes encode m (p ∷ ps) stored).1
        ≡ (track p.answers p.now stored).1
          ∷ (passes encode m ps (track p.answers p.now stored).0.stored).1
  unfolding passes
  passes_lem p ps stored learner =
      ap (λ r. r.1 ++ (passes encode m ps r.0).1) (alone_lem p.answers p.now stored learner)

  passes_kept :
      (u : ℕ) (ps : List Pass) (stored : LearnerProgress)
      → m.is_learner ≡ true
      → All (λ p. (u ≤ p.now) × (p.now + 1_000_000_000 ≤ u + learner_max_stall_time)) ps
      → IsRecent u stored
      → All (λ v. is_removal v ≡ false) (passes encode m ps stored).1
  unfolding passes
  passes_kept u [] stored learner all r = tt
  passes_kept u (p ∷ ps) stored learner ((later, within), all) r =
      let (r', kept) = track-IsRecent u p.now p.answers stored later within r in
      rw (passes_lem p ps stored learner)
        (kept, passes_kept u ps (track p.answers p.now stored).0.stored learner all r')

  and_both : (a b : Bool) → (a && b) ≡ true → (a ≡ true) × (b ≡ true)
  and_both a b h = (ground arith, ground arith)

  progress_owned :
      (p : LearnerProgress) (now : ℕ)
      → ((progress_of p m now).name ≡ m.name) × ((progress_of p m now).id ≡ m.id)
  unfolding progress_of
  progress_owned p now = elim (Bool-cases (str_eq p.name m.name && p.id == m.id)) [
    | inl own ↦
        let (named, same) = and_both (str_eq p.name m.name) (p.id == m.id) own in
        rw (own, progress_of) ((eq_iff p.name m.name).0 named, (==_iff p.id m.id).0 same)
    | inr other ↦ rw (other, progress_of) (refl, refl)
  ]

  -- A pass that sees the learner ahead of what is known of it, and stores that.
  advance-IsRecent :
      (u index : ℕ) (a : Answers) (stored : LearnerProgress)
      → a.promotes m.id ≡ false
      → first_status a.status_at m.client_urls ≡ some index
      → (progress_of stored m u).raft_applied_index < index
      → a.stores ≡ true
      → IsRecent u (track a u stored).0.stored × (is_removal (track a u stored).1 ≡ false)
  unfolding track_learner_progress update_progress
  advance-IsRecent u index a stored learner answered ahead stores =
      let (named, same) = progress_owned stored u in
      let ahead_of : ltb (progress_of stored m u).raft_applied_index index ≡ true = ground arith in
      let p : LearnerProgress = record (progress_of stored m u) {
        raft_applied_index = index;
        last_progress = u;
      } in
      let updated : update_progress (progress_of stored m u) u (some index) ≡ p =
        rw (ahead_of, update_progress) refl in
      rw (learner, answered, updated, track_learner_progress)
        (evict_or_store-IsRecent u u a (record { progress = p; stored = stored }) (omega arith)
          (record { named = named; same_id = same; recent = seconds.near u }) (inr stores))

-- A single learner that has been seen ahead of what was known of it, at `u`, is not removed in that
-- pass, and not in the passes after it up to five minutes less a second later, even if it makes no
-- further progress; whatever etcd answers in these, as long as the first pass could be stored. A time
-- that is stored keeps its whole seconds only.
pub passes_keep :
    (encode : ℕ → ℕ) (m : Member) (u index : ℕ) (a : Answers) (stored : LearnerProgress)
    (ps : List Pass)
    → IsWholeSeconds encode
    → m.is_learner ≡ true
    → a.promotes m.id ≡ false
    → first_status a.status_at m.client_urls ≡ some index
    → (progress_of stored m u).raft_applied_index < index
    → a.stores ≡ true
    → All (λ p. (u ≤ p.now) × (p.now + 1_000_000_000 ≤ u + learner_max_stall_time)) ps
    → All
        (λ v. is_removal v ≡ false)
        (passes encode m (record { now = u; answers = a } ∷ ps) stored).1
passes_keep encode m u index a stored ps seconds member learner answered ahead stores all =
    let (r, kept) =
      advance-IsRecent encode seconds m u index a stored learner answered ahead stores in
    rw (passes_lem encode seconds m (record { now = u; answers = a }) ps stored member) (
      kept,
      passes_kept encode seconds m u ps (track encode seconds m a u stored).0.stored member all r,
    )
