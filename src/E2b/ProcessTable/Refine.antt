-- ===== src/E2b/ProcessTable/Refine.antt =====
-- The table behaves as a map from pids to processes with multisets of subscribers.
use mathlib.Core.Path.{fun_ext}
use k8e.Common.{
  ℕ, ◌+◌, String, ◌≡◌, refl, sym, ap, ◌∙◌, inl, inr, Option, none, some, List, [], ◌∷◌, ◌++◌, arith,
  ◌==◌, ==_iff, Bool-cases, Option-cases,
}
use k8e.E2b.ProcessTable.{
  ProcessRecord, ProcessTable, new_process_table, find, change, start, get, set_guest_pid,
  guest_pid, subscribe, drop_sub, unsubscribe, replace_sub, replace_subscriber, broadcast, finish,
}
use k8e.E2b.ProcessTable.Pids.{find-change, find-discard}
use k8e.E2b.ProcessTable.Calls.{
  Call, Seen, call, trace, Process, as_process, count, Processes, no_processes, set_at, mapped, own,
  is_some, listeners, guest_of, one_more, one_less, handed_over, alter, call_spec, trace_spec,
}

count-append :
    (subs : List ℕ) (sub s : ℕ) → count (subs ++ sub ∷ []) s ≡ one_more sub (count subs) s
unfolding count
count-append [] sub s = ground (arith, ==_iff sub s, ==_iff s sub)
count-append (x ∷ subs) sub s = ground (arith, count-append subs sub s)

count-drop_sub :
    (subs : List ℕ) (sub s : ℕ) → count (drop_sub sub subs) s ≡ one_less sub (count subs) s
unfolding count drop_sub
count-drop_sub [] sub s = ground arith
count-drop_sub (x ∷ subs) sub s =
    ground (arith, count-drop_sub subs sub s, ==_iff x sub, ==_iff x s, ==_iff s sub)

count-replace_sub :
    (subs : List ℕ) (old fresh s : ℕ)
    → count (replace_sub old fresh subs) s ≡ handed_over old fresh (count subs) s
unfolding count replace_sub
count-replace_sub [] old fresh s = ground arith
count-replace_sub (x ∷ subs) old fresh s = ground (
  arith,
  count-replace_sub subs old fresh s,
  ==_iff x old,
  ==_iff x s,
  ==_iff s old,
  ==_iff s fresh,
  ==_iff fresh s,
)

-- The table stands for the map.
pub record IsRefined (t : ProcessTable) (s : Processes) : Type 0 where
  pub same_next : t.next_pid ≡ s.next
  pub same_at : (q : ℕ) → mapped as_process (find q t.records) ≡ s.at q

get_lem :
    (t : ProcessTable) (sandbox_id : String) (p : ℕ)
    → mapped as_process (get t sandbox_id p) ≡ own sandbox_id (mapped as_process (find p t.records))
unfolding get own mapped
get_lem t sandbox_id p = elim (Option-cases (find p t.records)) [
  | inl gone ↦ rw (gone, get, own) refl
  | inr (rec, here) ↦ ground (arith, here)
]

guest_lem :
    (t : ProcessTable) (p : ℕ) → guest_pid t p ≡ guest_of (mapped as_process (find p t.records))
unfolding guest_pid guest_of mapped
guest_lem t p = elim (Option-cases (find p t.records)) [
  | inl gone ↦ rw (gone, guest_pid, guest_of) refl
  | inr (rec, here) ↦ rw (here, guest_pid, guest_of) refl
]

told_lem :
    (t : ProcessTable) (p : ℕ)
    → count (broadcast t p) ≡ listeners (mapped as_process (find p t.records))
unfolding broadcast listeners mapped count
told_lem t p = elim (Option-cases (find p t.records)) [
  | inl gone ↦ rw (gone, broadcast, listeners) refl
  | inr (rec, here) ↦ rw (here, broadcast, listeners) refl
]

accepted_lem :
    (t : ProcessTable) (p sub : ℕ)
    → (subscribe t p sub).1 ≡ is_some (mapped as_process (find p t.records))
unfolding subscribe is_some mapped
accepted_lem t p sub = elim (Option-cases (find p t.records)) [
  | inl gone ↦ rw (gone, subscribe, is_some) refl
  | inr (rec, here) ↦ rw (here, subscribe, is_some) refl
]

mapped_lem :
    (f : ProcessRecord → ProcessRecord) (g : Process → Process)
    → ((rec : ProcessRecord) → as_process (f rec) ≡ g (as_process rec))
    → (o : Option ProcessRecord)
    → mapped as_process (elim o [ none ↦ none | some rec ↦ some (f rec) ])
      ≡ mapped g (mapped as_process o)
unfolding mapped
mapped_lem f g law none = refl
mapped_lem f g law (some rec) = ap some (law rec)

changed :
    (t : ProcessTable) (s : Processes) (p : ℕ) (f : ProcessRecord → ProcessRecord)
    (g : Process → Process)
    → ((rec : ProcessRecord) → as_process (f rec) ≡ g (as_process rec))
    → IsRefined t s
    → IsRefined (record t { records = change f p t.records }) (alter s p g)
unfolding set_at
changed t s p f g law r = record {
  same_next = r.same_next;
  same_at = λ q. ap (mapped as_process) (find-change f p q t.records) ∙ elim (Bool-cases (p == q)) [
    | inr other ↦ rw other (r.same_at q)
    | inl same ↦
        let here : p ≡ q = (==_iff p q).0 same in
        rw same
          (mapped_lem f g law (find q t.records) ∙ ap (mapped g) (r.same_at q ∙ ap s.at (sym here)))
  ];
}

seen_lem :
    (t : ProcessTable) (s : Processes) (c : Call) → IsRefined t s → (call t c).1 ≡ (call_spec s c).1
unfolding call call_spec finish broadcast
seen_lem t s (Call.starts sandbox_id) r = ap Seen.pid r.same_next
seen_lem t s (Call.gets sandbox_id p) r =
    ap Seen.process (get_lem t sandbox_id p ∙ ap (own sandbox_id) (r.same_at p))
seen_lem t s (Call.sets_guest_pid p g) r = refl
seen_lem t s (Call.reads_guest_pid p) r = ap Seen.guest (guest_lem t p ∙ ap guest_of (r.same_at p))
seen_lem t s (Call.subscribes p sub) r =
    ap Seen.accepted (accepted_lem t p sub ∙ ap is_some (r.same_at p))
seen_lem t s (Call.unsubscribes p sub) r = refl
seen_lem t s (Call.replaces p old fresh) r = refl
seen_lem t s (Call.broadcasts p) r = ap Seen.told (told_lem t p ∙ ap listeners (r.same_at p))
seen_lem t s (Call.finishes p) r = ap Seen.told (told_lem t p ∙ ap listeners (r.same_at p))

listens_lem :
    (rec : ProcessRecord) (subs : List ℕ) (listens : ℕ → ℕ)
    → ((s : ℕ) → count subs s ≡ listens s)
    → as_process (record rec { subs = subs }) ≡ record (as_process rec) { listens = listens }
listens_lem rec subs listens law = ap (λ l. record (as_process rec) { listens = l }) (fun_ext law)

call-IsRefined :
    (t : ProcessTable) (s : Processes) (c : Call)
    → IsRefined t s
    → IsRefined (call t c).0 (call_spec s c).0
unfolding call call_spec start set_guest_pid subscribe unsubscribe replace_subscriber finish set_at
    find mapped count
call-IsRefined t s (Call.starts sandbox_id) r = record {
  same_next = ap (λ n. n + 1) r.same_next;
  same_at = λ q. rw r.same_next (elim (Bool-cases (s.next == q)) [
    | inl same ↦ rw same refl
    | inr other ↦ rw other (r.same_at q)
  ]);
}
call-IsRefined t s (Call.gets sandbox_id p) r = r
call-IsRefined t s (Call.sets_guest_pid p g) r =
    changed t s p (λ rec. record rec { guest_pid = some g })
      (λ proc. record proc { guest_pid = some g }) (λ rec. refl) r
call-IsRefined t s (Call.reads_guest_pid p) r = r
call-IsRefined t s (Call.subscribes p sub) r =
    changed t s p (λ rec. record rec { subs = rec.subs ++ sub ∷ [] })
      (λ proc. record proc { listens = one_more sub proc.listens })
      (λ rec. listens_lem rec _ _ (count-append rec.subs sub)) r
call-IsRefined t s (Call.unsubscribes p sub) r =
    changed t s p (λ rec. record rec { subs = drop_sub sub rec.subs })
      (λ proc. record proc { listens = one_less sub proc.listens })
      (λ rec. listens_lem rec _ _ (count-drop_sub rec.subs sub)) r
call-IsRefined t s (Call.replaces p old fresh) r =
    changed t s p (λ rec. record rec { subs = replace_sub old fresh rec.subs })
      (λ proc. record proc { listens = handed_over old fresh proc.listens })
      (λ rec. listens_lem rec _ _ (count-replace_sub rec.subs old fresh)) r
call-IsRefined t s (Call.broadcasts p) r = r
call-IsRefined t s (Call.finishes p) r = record {
  same_next = r.same_next;
  same_at = λ q.
      ap (mapped as_process) (find-discard p q t.records)
      ∙ elim (Bool-cases (p == q)) [ inl same ↦ rw same refl | inr other ↦ rw other (r.same_at q) ];
}

trace-refines :
    (t : ProcessTable) (s : Processes) (cs : List Call)
    → IsRefined t s
    → trace t cs ≡ trace_spec s cs
unfolding trace trace_spec
trace-refines t s [] r = refl
trace-refines t s (c ∷ cs) r =
    ap (λ x. x ∷ trace (call t c).0 cs) (seen_lem t s c r)
    ∙ ap (λ xs. (call_spec s c).1 ∷ xs)
        (trace-refines (call t c).0 (call_spec s c).0 cs (call-IsRefined t s c r))

-- Whatever calls are made to a new table one after the other, what is seen of them is what a map from
-- pids to processes would show, in which a subscriber listens as often as it has been added to the
-- process and not yet been taken off: a subscription adds one listening, the end of one takes away one
-- if there is any and no other, and a replacement passes one on if there is any.
pub trace-trace_spec : (cs : List Call) → trace new_process_table cs ≡ trace_spec no_processes cs
unfolding find mapped
trace-trace_spec cs =
    trace-refines new_process_table no_processes cs
      (record { same_next = refl; same_at = λ q. refl })
