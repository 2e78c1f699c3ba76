-- ===== src/Gateway/Approvals/Decisions.antt =====
-- A decision reaches the one who waits for it.
use text.Mathlib.TextPositions.{eq_refl as text_refl}
use k8e.Common.{ℕ, String, ◌≡◌, refl, ap, ◌∙◌, Bool, true, false, none, some, arith, ◌==◌}
use k8e.Common.Int.{ℤ}
use k8e.Common.Assoc.{lookup, insert, remove, lookup-insert, lookup-remove}
use k8e.Gateway.Approvals.{
  Channel, PendingApproval, Approvals, Send, set_channel, send, receive, request_approval,
  find_channel, send_decision, approve, Waited, take_decision,
}

same_number : (k : ℕ) → (k == k) ≡ true
same_number k = ground arith

abbrev empty_channel : Channel
empty_channel = record { buffer = none; closed = false }

abbrev full_channel : Bool → Channel
full_channel b = record { buffer = some b; closed = false }

request_found :
    (s : Approvals) (id action : String) (now : ℤ)
    → find_channel (request_approval s id action now) id ≡ some s.next
unfolding find_channel request_approval
request_found s id action now =
    let p : PendingApproval = record { action = action; channel = s.next; created_at = now } in
    let there : lookup id (insert id p s.pending) ≡ some p =
      lookup-insert id id p s.pending ∙ rw (text_refl id) refl in
    rw (there, find_channel) refl

request_channel :
    (s : Approvals) (id action : String) (now : ℤ)
    → (request_approval s id action now).channels s.next ≡ empty_channel
unfolding request_approval set_channel
request_channel s id action now = rw (same_number s.next) refl

sent_lem :
    (s : Approvals) (k : ℕ) (b : Bool)
    → s.channels k ≡ empty_channel
    → ((send_decision s k b).1 ≡ Send.sent) × ((send_decision s k b).0.channels k ≡ full_channel b)
unfolding send_decision set_channel send
sent_lem s k b e = (rw e refl, rw (same_number k, e) refl)

approve_found :
    (s : Approvals) (id : String) (k : ℕ) (b : Bool)
    → find_channel s id ≡ some k
    → approve s id b ≡ ((send_decision s k b).0, some (send_decision s k b).1)
unfolding approve
approve_found s id k b e = rw (e, approve) refl

-- The channel of a new approval, once it has been decided.
decided_lem :
    (s : Approvals) (id action : String) (now : ℤ) (b : Bool)
    → ((approve (request_approval s id action now) id b).1 ≡ some Send.sent)
      × ((approve (request_approval s id action now) id b).0.channels s.next ≡ full_channel b)
decided_lem s id action now b =
    let new = request_approval s id action now in
    let e = approve_found new id s.next b (request_found s id action now) in
    let (ok, full) = sent_lem new s.next b (request_channel s id action now) in
    (ap (λ r. r.1) e ∙ ap some ok, ap (λ r. r.0.channels s.next) e ∙ full)

take_lem :
    (t : Approvals) (id : String) (k : ℕ) (b : Bool)
    → t.channels k ≡ full_channel b
    → (r : Approvals) × (take_decision t id k ≡ some (r, Waited.decided b))
      × (find_channel r id ≡ none)
unfolding take_decision receive find_channel
take_lem t id k b e =
    let r : Approvals = record t {
      pending = remove id t.pending;
      channels = set_channel k empty_channel t.channels;
    } in
    let gone : lookup id (remove id t.pending) ≡ none =
      lookup-remove id id t.pending ∙ rw (text_refl id) refl in
    let taken : receive (t.channels k) ≡ some (b, empty_channel) = ap receive e in
    (r, rw (taken, take_decision) refl, rw (gone, find_channel) refl)

-- A decision arrives: for a new approval Approve does not block, and a ConfirmAction that waits with
-- its ID returns the decision and takes the approval away, in every later state in which nothing else
-- has been done to the approval's channel.
pub take_decision-approve :
    (s : Approvals) (id action : String) (now : ℤ) (b : Bool) (t : Approvals)
    → t.channels s.next ≡ (approve (request_approval s id action now) id b).0.channels s.next
    → (find_channel (request_approval s id action now) id ≡ some s.next)
      × ((approve (request_approval s id action now) id b).1 ≡ some Send.sent)
      × (r : Approvals) × (take_decision t id s.next ≡ some (r, Waited.decided b))
      × (find_channel r id ≡ none)
take_decision-approve s id action now b t same =
    let (ok, full) = decided_lem s id action now b in
    let (r, taken, gone) = take_lem t id s.next b (same ∙ full) in
    (request_found s id action now, ok, r, taken, gone)
