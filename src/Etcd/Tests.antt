-- ===== src/Etcd/Tests.antt =====
-- The theorems on learners at concrete inputs.
use k8e.Common.{ℕ, ◌*◌, ◌/◌, ◌≡◌, refl, true, false, some, List, [], ◌∷◌, arith, All}
use k8e.Etcd.Learners.{
  Member, LearnerProgress, Answers, removed, manage_learners, first_status, progress_of,
}
use k8e.Etcd.Learners.Evictions.{Pass, passes, is_removal, IsWholeSeconds, passes_keep}
use k8e.Etcd.Learners.Stalls.{is_old, IsSilent, silent_removed}

-- A time in whole seconds.
unfoldable whole_seconds : ℕ → ℕ
whole_seconds t = t / 1_000_000_000 * 1_000_000_000

again_lem : (t : ℕ) → whole_seconds (whole_seconds t) ≡ whole_seconds t
unfolding whole_seconds
again_lem t = omega arith

whole_seconds-IsWholeSeconds : IsWholeSeconds whole_seconds
unfolding whole_seconds
whole_seconds-IsWholeSeconds = record {
  down = λ t. omega arith;
  near = λ t. omega arith;
  again = λ t. again_lem t;
}

abbrev node : Member
node = record {
  id = 7;
  name = "node-2";
  is_learner = true;
  client_urls = "https://10.0.0.2:2379" ∷ [];
}

-- The learner is not promoted, and answers with an index.
abbrev at_index : ℕ → Answers
at_index index = record {
  promotes = λ id. false;
  removes = λ id. true;
  status_at = λ url. some index;
  stores = true;
}

abbrev known : LearnerProgress
known = record { id = 7; name = "node-2"; raft_applied_index = 10; last_progress = 5_000_000_000 }

abbrev later_passes : List Pass
later_passes =
    record { now = 100_000_000_000; answers = at_index 12 }
    ∷ record { now = 300_000_000_000; answers = at_index 12 }
    ∷ []

passes_keep_example :
    All
      (λ v. is_removal v ≡ false)
      (passes whole_seconds node
        (record { now = 8_500_000_000; answers = at_index 12 } ∷ later_passes)
        known).1
unfolding first_status progress_of
passes_keep_example =
    passes_keep whole_seconds node 8_500_000_000 12 (at_index 12) known later_passes
      whole_seconds-IsWholeSeconds refl refl refl (omega arith) refl
      ((omega arith, omega arith), ((omega arith, omega arith), tt))

no_news : IsSilent whole_seconds node known (at_index 10)
unfolding is_old first_status
no_news = record { not_promoted = refl; no_news = refl }

silent_removed_example :
    (manage_learners whole_seconds
      (at_index 10)
      305_000_000_001
      (node ∷ [])
      (passes whole_seconds node
        (record { now = 100_000_000_000; answers = at_index 10 } ∷ [])
        known).0).1
    ≡ removed ∷ []
unfolding whole_seconds
silent_removed_example =
    silent_removed whole_seconds node known
      (record { now = 100_000_000_000; answers = at_index 10 } ∷ []) (at_index 10) 305_000_000_001
      refl (record { named = refl; same_id = refl; whole = refl }) (no_news, tt) no_news
      (omega arith) refl
