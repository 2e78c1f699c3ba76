-- ===== src/Gateway/Approvals.antt =====
-- Approvals of pkg/sandboxmatrix/grpc/orchestrator.go: ConfirmAction, Approve, ApproveAction and one
-- tick of StartApprovalGC. The map of pending approvals is read and written under the lock; what is
-- sent or received on an approval's channel is outside of it, so that other steps can come in between.
pub mod Decisions
use k8e.Common.{
  ℕ, zero, suc, ◌+◌, ◌-◌, ◌*◌, ◌/◌, ◌%◌, ◌^◌, ◌≤◌, ◌<◌, String, ◌≡◌, refl, sym, ap, ◌∙◌, ◌≢◌, ◌↔◌,
  ◌⊎◌, inl, inr, Bool, true, false, ◌&&◌, ◌||◌, not, Option, none, some, List, [], ◌∷◌, ◌++◌, map,
  arith, str_eq, eq_iff, ltb, leb, ◌==◌, if◌then◌else◌, ltb→lt, lt→ltb, leb→le, ==_iff, Bool-cases,
  Option-cases, length, get_elem?, replicate, select, length-append, length-replicate, All,
}
use k8e.Common.Int.{
  ℤ, pos, negsuc, pos_part, neg_part, sub_ℕ, ◌+ℤ◌, ◌-ℤ◌, ◌*ℤ◌, ◌≤ℤ◌, ◌<ℤ◌, ltb_ℤ, leb_ℤ, eqb_ℤ,
  div_ℤ, wrap64, IsInt64, wrap64-IsInt64, wrap64_fits, +ℤ_parts, -ℤ_parts, eq_of_parts, int_laws,
}
use k8e.Common.Assoc.{lookup, insert, remove}

-- A chan bool with a buffer of one.
pub record Channel : Type 0 where
  pub buffer : Option Bool
  pub closed : Bool

-- pendingApproval, with its channel by number.
pub record PendingApproval : Type 0 where
  pub action : String
  pub channel : ℕ
  pub created_at : ℤ

-- The map, the channels that have been made, and the number of the next one.
pub record Approvals : Type 0 where
  pub pending : List (String × PendingApproval)
  pub channels : ℕ → Channel
  pub next : ℕ

-- What becomes of a send: it is done, it blocks, or it panics as the channel is closed.
pub data Send : Type 0 where
  sent blocked panicked : Send

unfoldable pub set_channel : ℕ → Channel → (ℕ → Channel) → ℕ → Channel
set_channel k c channels j = if j == k then c else channels j

-- ch <- b
unfoldable pub send : Channel → Bool → Channel × Send
send c b = elim c.buffer [
  | none ↦ if c.closed then (c, Send.panicked) else (record c { buffer = some b }, Send.sent)
  | some old ↦ if c.closed then (c, Send.panicked) else (c, Send.blocked)
]

-- <-ch, `none` where it blocks; a closed channel with nothing in it gives false.
unfoldable pub receive : Channel → Option (Bool × Channel)
receive c = elim c.buffer [
  | some b ↦ some (b, record c { buffer = none })
  | none ↦ if c.closed then some (false, c) else none
]

abbrev pub closing : Channel → Channel
closing c = record c { closed = true }

-- approvalTTL in nanoseconds.
abbrev pub approval_ttl : ℤ
approval_ttl = pos 300_000_000_000

-- ConfirmAction without an ID: `id` is the new one.
unfoldable pub request_approval : Approvals → String → String → ℤ → Approvals
unfolding set_channel
request_approval s id action now = record {
  pending = insert id (record { action = action; channel = s.next; created_at = now }) s.pending;
  channels = set_channel s.next (record { buffer = none; closed = false }) s.channels;
  next = s.next + 1;
}

-- The reading of the map with which Approve, and ConfirmAction with an ID, begin.
unfoldable pub find_channel : Approvals → String → Option ℕ
find_channel s id = elim (lookup id s.pending) [ none ↦ none | some p ↦ some p.channel ]

-- The send of Approve, on the channel that it has read.
unfoldable pub send_decision : Approvals → ℕ → Bool → Approvals × Send
unfolding set_channel send
send_decision s k b =
    let (c, r) = send (s.channels k) b in (record s { channels = set_channel k c s.channels }, r)

-- Approve, when nothing comes in between; `none` for an approval that is not there.
unfoldable pub approve : Approvals → String → Bool → Approvals × Option Send
unfolding find_channel send_decision
approve s id b = elim (find_channel s id) [
  | none ↦ (s, none)
  | some k ↦ let (s', r) = send_decision s k b in (s', some r)
]

-- How the wait of ConfirmAction ends: with a decision, or by the caller or the time.
pub data Waited : Type 0 where
  decided : Bool → Waited
  cancelled timed_out : Waited

-- The select of ConfirmAction on the channel that it has read: the decision, if the channel has one.
unfoldable pub take_decision : Approvals → String → ℕ → Option (Approvals × Waited)
unfolding receive set_channel
take_decision s id k = elim (receive (s.channels k)) [
  | none ↦ none
  | some (b, c) ↦ some (
    record s { pending = remove id s.pending; channels = set_channel k c s.channels },
    Waited.decided b,
  )
]

-- Its other two cases.
unfoldable pub give_up : Approvals → String → Waited → Approvals × Waited
give_up s id why = (record s { pending = remove id s.pending }, why)

-- One tick of StartApprovalGC: the approvals that are too old are closed and deleted. The close of a
-- closed channel, which would panic, is left out: an approval is deleted as its channel is closed.
unfoldable pub collect_approvals :
    ℤ
    → List (String × PendingApproval)
    → (ℕ → Channel)
    → List (String × PendingApproval) × (ℕ → Channel)
unfolding set_channel
collect_approvals cutoff [] channels = ([], channels)
collect_approvals cutoff ((id, p) ∷ pending) channels =
    let closed =
      collect_approvals cutoff pending
        (set_channel p.channel (closing (channels p.channel)) channels) in
    let (kept, channels') = collect_approvals cutoff pending channels in
    if ltb_ℤ p.created_at cutoff then closed else ((id, p) ∷ kept, channels')

unfoldable pub approval_gc : Approvals → ℤ → Approvals
unfolding collect_approvals
approval_gc s now =
    let (pending, channels) = collect_approvals (now -ℤ approval_ttl) s.pending s.channels in
    record s { pending = pending; channels = channels }
