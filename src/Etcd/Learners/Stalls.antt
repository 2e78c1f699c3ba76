-- ===== src/Etcd/Learners/Stalls.antt =====
-- A learner that makes no progress is removed.
use k8e.Common.{
  ℕ, ◌+◌, ◌-◌, ◌<◌, ◌≡◌, refl, ap, ◌∙◌, inl, inr, Bool, true, false, not, Option, none, some, List,
  [], ◌∷◌, arith, ltb, Bool-cases, All,
}
use k8e.Etcd.Learners.{
  Member, LearnerProgress, Answers, removed, Tracking, learner_max_stall_time, first_status,
  update_progress, set_learner_progress, evict_or_store, track_learner_progress, track_members,
  manage_learners,
}
use k8e.Etcd.Learners.Evictions.{Pass, passes, own_lem}

-- Whether a status is no news.
unfoldable pub is_old : ℕ → Option ℕ → Bool
is_old known none = true
is_old known (some index) = not (ltb known index)

module _ (encode : ℕ → ℕ) (m : Member) (p : LearnerProgress) where
  -- Etcd does not promote the learner, and sees nothing new of it.
  pub record IsSilent (a : Answers) : Type 0 where
    pub not_promoted : a.promotes m.id ≡ false
    pub no_news : is_old p.raft_applied_index (first_status a.status_at m.client_urls) ≡ true

  -- What is stored is about the learner, as it was stored.
  pub record IsStored : Type 0 where
    pub named : p.name ≡ m.name
    pub same_id : p.id ≡ m.id
    pub whole : encode p.last_progress ≡ p.last_progress

  old_lem :
      (now : ℕ) (o : Option ℕ) → is_old p.raft_applied_index o ≡ true → update_progress p now o ≡ p
  unfolding is_old update_progress
  old_lem now none h = refl
  old_lem now (some index) h = elim (Bool-cases (ltb p.raft_applied_index index)) [
    | inl ahead ↦ cc (rw (ahead, is_old) at h)
    | inr old ↦ rw (old, update_progress) refl
  ]

  abbrev at_start : Tracking
  at_start = record { progress = p; stored = p }

  silent_lem :
      (a : Answers) (now : ℕ)
      → IsStored
      → IsSilent a
      → track_learner_progress encode a now m at_start ≡ evict_or_store encode a now m at_start
  unfolding track_learner_progress
  silent_lem a now s silent =
      rw
        (
          silent.not_promoted,
          own_lem p m now s.named s.same_id,
          old_lem now (first_status a.status_at m.client_urls) silent.no_news,
          track_learner_progress,
        )
        refl

  same_stored :
      (a : Answers) (now : ℕ) → IsStored → (evict_or_store encode a now m at_start).0.stored ≡ p
  unfolding evict_or_store set_learner_progress
  same_stored a now s = elim (Bool-cases (ltb learner_max_stall_time (now - p.last_progress))) [
    | inl stalled ↦ rw (stalled, evict_or_store) refl
    | inr within ↦ elim (Bool-cases a.stores) [
      | inl ok ↦ rw (within, ok, evict_or_store) (ap (λ t. record p { last_progress = t }) s.whole)
      | inr lost ↦ rw (within, lost, evict_or_store) refl
    ]
  ]

  silent_pass :
      (a : Answers) (now : ℕ)
      → m.is_learner ≡ true
      → IsStored
      → IsSilent a
      → manage_learners encode a now (m ∷ []) p
        ≡ (p, (evict_or_store encode a now m at_start).1 ∷ [])
  unfolding manage_learners track_members
  silent_pass a now learner s silent =
      rw (learner, silent_lem a now s silent, manage_learners, track_members)
        (ap (λ q. (q, (evict_or_store encode a now m at_start).1 ∷ [])) (same_stored a now s))

  silent_passes :
      (ps : List Pass)
      → m.is_learner ≡ true
      → IsStored
      → All (λ q. IsSilent q.answers) ps
      → (passes encode m ps p).0 ≡ p
  unfolding passes
  silent_passes [] learner s all = refl
  silent_passes (q ∷ ps) learner s (silent, all) =
      ap (λ r. (passes encode m ps r.0).0) (silent_pass q.answers q.now learner s silent)
      ∙ silent_passes ps learner s all

  evicted_lem :
      (a : Answers) (now : ℕ)
      → p.last_progress + learner_max_stall_time < now
      → a.removes m.id ≡ true
      → (evict_or_store encode a now m at_start).1 ≡ removed
  unfolding evict_or_store
  evicted_lem a now late removes =
      let stalled : ltb learner_max_stall_time (now - p.last_progress) ≡ true = ground arith in
      rw (stalled, removes, evict_or_store) refl

-- A learner that is alone, is not promoted, and is never seen ahead of what is stored of it is removed
-- by the first pass that etcd lets remove it more than five minutes after its last progress, however
-- many such passes came before.
pub silent_removed :
    (encode : ℕ → ℕ) (m : Member) (p : LearnerProgress) (ps : List Pass) (a : Answers) (now : ℕ)
    → m.is_learner ≡ true
    → IsStored encode m p
    → All (λ q. IsSilent encode m p q.answers) ps
    → IsSilent encode m p a
    → p.last_progress + learner_max_stall_time < now
    → a.removes m.id ≡ true
    → (manage_learners encode a now (m ∷ []) (passes encode m ps p).0).1 ≡ removed ∷ []
silent_removed encode m p ps a now learner s all silent late removes =
    ap (λ q. (manage_learners encode a now (m ∷ []) q).1)
      (silent_passes encode m p ps learner s all)
    ∙ ap (λ r. r.1) (silent_pass encode m p a now learner s silent)
    ∙ ap (λ v. v ∷ []) (evicted_lem encode m p a now late removes)
