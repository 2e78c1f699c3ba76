-- ===== src/Etcd/Learners.antt =====
-- How the leader follows a learner towards its promotion: trackLearnerProgress of pkg/etcd/etcd.go and
-- the loop over the members in manageLearners. Times are nanoseconds; raft indexes are natural numbers.
pub mod Evictions
pub mod Stalls
use k8e.Common.{
  ℕ, zero, suc, ◌+◌, ◌-◌, ◌*◌, ◌/◌, ◌%◌, ◌^◌, ◌≤◌, ◌<◌, String, ◌≡◌, refl, sym, ap, ◌∙◌, ◌≢◌, ◌↔◌,
  ◌⊎◌, inl, inr, Bool, true, false, ◌&&◌, ◌||◌, not, Option, none, some, List, [], ◌∷◌, ◌++◌, map,
  arith, str_eq, eq_iff, ltb, leb, ◌==◌, if◌then◌else◌, ltb→lt, lt→ltb, leb→le, ==_iff, Bool-cases,
  Option-cases, length, get_elem?, replicate, select, length-append, length-replicate, All,
}

pub record Member : Type 0 where
  pub id : ℕ
  pub name : String
  pub is_learner : Bool
  pub client_urls : List String

pub record LearnerProgress : Type 0 where
  pub id : ℕ
  pub name : String
  pub raft_applied_index : ℕ
  pub last_progress : ℕ

-- What etcd answers in one pass: to the promotion and the removal of a member, to a request for the
-- status at an address (the raft index, or an error), and to the storing of the progress.
pub record Answers : Type 0 where
  pub promotes : ℕ → Bool
  pub removes : ℕ → Bool
  pub status_at : String → Option ℕ
  pub stores : Bool

-- How the tracking of one learner ends.
pub data Verdict : Type 0 where
  promoted removed removal_failed tracked not_stored : Verdict

-- The progress that the pass works on, and the one that is stored in etcd.
pub record Tracking : Type 0 where
  pub progress : LearnerProgress
  pub stored : LearnerProgress

abbrev pub learner_max_stall_time : ℕ
learner_max_stall_time = 300_000_000_000

-- The stats of another member are reset.
unfoldable pub progress_of : LearnerProgress → Member → ℕ → LearnerProgress
progress_of p m now =
    if str_eq p.name m.name && p.id == m.id
    then p
    else record { id = m.id; name = m.name; raft_applied_index = 0; last_progress = now }

-- The status from the first client URL that answers.
unfoldable pub first_status : (String → Option ℕ) → List String → Option ℕ
first_status status_at [] = none
first_status status_at (url ∷ urls) = elim (status_at url) [
  | none ↦ first_status status_at urls
  | some index ↦ some index
]

unfoldable pub update_progress : LearnerProgress → ℕ → Option ℕ → LearnerProgress
update_progress p now none = p
update_progress p now (some index) =
    if ltb p.raft_applied_index index
    then record p { raft_applied_index = index; last_progress = now }
    else p

-- `encode` is what a time is after it has been written as JSON and read again.
module _ (encode : ℕ → ℕ) where
  -- setLearnerProgress
  unfoldable pub set_learner_progress : Answers → Tracking → Tracking × Verdict
  set_learner_progress a t =
      if a.stores
      then (
        record t { stored = record t.progress { last_progress = encode t.progress.last_progress } },
        Verdict.tracked,
      )
      else (t, Verdict.not_stored)

  -- trackLearnerProgress, once the progress is up to date.
  unfoldable pub evict_or_store : Answers → ℕ → Member → Tracking → Tracking × Verdict
  unfolding set_learner_progress
  evict_or_store a now m t =
      if ltb learner_max_stall_time (now - t.progress.last_progress)
      then (t, if a.removes m.id then Verdict.removed else Verdict.removal_failed)
      else set_learner_progress a t

  -- trackLearnerProgress
  unfoldable pub track_learner_progress : Answers → ℕ → Member → Tracking → Tracking × Verdict
  unfolding progress_of first_status update_progress evict_or_store
  track_learner_progress a now m t =
      if a.promotes m.id
      then (t, Verdict.promoted)
      else evict_or_store a now m (record t {
        progress =
            update_progress (progress_of t.progress m now) now
              (first_status a.status_at m.client_urls);
      })

  -- The loop of manageLearners over the members, as far as it tracks learners.
  unfoldable pub track_members : Answers → ℕ → List Member → Tracking → Tracking × List Verdict
  unfolding track_learner_progress
  track_members a now [] t = (t, [])
  track_members a now (m ∷ ms) t =
      let (t', verdict) = track_learner_progress a now m t in
      let (t'', verdicts) = track_members a now ms t' in
      let skipped = track_members a now ms t in
      if m.is_learner then (t'', verdict ∷ verdicts) else skipped

  -- One pass of manageLearners on the leader, from what is stored: what is stored then, and the
  -- verdicts. getLearnerProgress reads the progress that the last pass has stored.
  unfoldable pub manage_learners :
      Answers → ℕ → List Member → LearnerProgress → LearnerProgress × List Verdict
  unfolding track_members
  manage_learners a now ms stored =
      let (t, verdicts) = track_members a now ms (record { progress = stored; stored = stored }) in
      (t.stored, verdicts)
