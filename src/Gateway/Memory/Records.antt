-- ===== src/Gateway/Memory/Records.antt =====
-- The laws of Gateway/Runs/Restart, for the cluster in memory.
use text.Mathlib.TextPositions.{eq_refl as text_refl}
use k8e.Common.{
  String, ◌≡◌, refl, sym, ap, ◌∙◌, inl, inr, Bool, true, Option, none, some, List, [], ◌∷◌, str_eq,
  eq_iff, Bool-cases,
}
use k8e.Gateway.Api.{Session}
use k8e.Gateway.Runs.Rebuilt.{listed_session}
use k8e.Gateway.Runs.Restart.{IsRecorded}
use k8e.Gateway.Store.{as_stored}
use k8e.Gateway.Memory.{session_named, session_at, with_meta, all_sessions, memory, World}
use k8e.Gateway.Memory.Laws.{set_at_lem, session_named_lem, session_named-versioned}

abbrev pub submits : World → String → String → World × Bool
submits w ip run = (w, true)

with_meta_lem :
    (s old : Session) (o : Option Session)
    → s.versioned ≡ true
    → session_named s.name o ≡ some old
    → session_named s.name (with_meta s o) ≡ some (record s { status = old.status })
unfolding session_named with_meta as_stored
with_meta_lem s old none read e = cc
with_meta_lem s old (some t) read e = elim (Bool-cases (str_eq t.name s.name)) [
  | inr other ↦ cc (rw other at e)
  | inl same ↦
      let this : as_stored t ≡ old = cc (rw same at e) in
      rw (text_refl s.name) (
        ap (λ r. some (record s { versioned = true; status = r.status })) this
        ∙ ap (λ b. some (record s { versioned = b; status = old.status })) (sym read))
]

noted_lem :
    (w : World) (s old : Session)
    → s.versioned ≡ true
    → session_at w s.name ≡ some old
    → session_at (memory.update_session w s).0 s.name ≡ some (record s { status = old.status })
noted_lem w s old read e =
    set_at_lem s.name s.name (with_meta s (w.sessions s.name)) w.sessions
    ∙ rw (text_refl s.name) (with_meta_lem s old (w.sessions s.name) read e)

listed_lem :
    (o : Option Session) (ss : List Session) (id : String) (s : Session)
    → session_named id o ≡ some s
    → all_sessions (session_named id o) ≡ ss
    → listed_session id ss ≡ some s
unfolding all_sessions listed_session
listed_lem o ss id s e h =
    let one : s ∷ [] ≡ ss = rw e at h in
    rw (sym one, (eq_iff s.name id).1 (session_named_lem id o s e)) refl

pub memory-IsRecorded : IsRecorded memory submits "s-1"
memory-IsRecorded = record {
  kept = λ w ip run. refl;
  named = λ w s e. session_named_lem "s-1" (w.sessions "s-1") s e;
  versioned = λ w s e. session_named-versioned "s-1" (w.sessions "s-1") s e;
  noted = λ w s old named read e.
      ap (λ j. session_at (memory.update_session w s).0 j) (sym named)
      ∙ noted_lem w s old read (ap (session_at w) named ∙ e);
  listed = λ w ss s h e.
      listed_lem (w.sessions "s-1") ss "s-1" s e
        (let at_end : all_sessions (session_at w "s-1") ≡ ss = cc in at_end);
}
