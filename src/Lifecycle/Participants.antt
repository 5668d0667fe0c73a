-- ===== src/Lifecycle/Participants.antt =====
-- The payment status of the participants of a split, and the summary of its completion
-- (backend/src/lib/split-lifecycle.ts).
pub mod Payments
pub mod Completion
use Prim.Native.Nat.{◌≤◌}
use split_naira.Prelude.{
  ℕ, zero, suc, ◌+◌, ◌-◌, ◌*◌, Text, text_eq, trim, to_upper_case, is_empty, Bool, true, false,
  ◌&&◌, ◌||◌, not, List, [], ◌∷◌, map, Option, none, some, ltb, leb, ◌==◌, if◌then◌else◌, filter,
  length, sum_by, Result, ok, err, or_else, is_some,
}
use split_naira.Prelude.Int.{ℤ, pos, negsuc, negate_ℕ, is_positive, is_zero_ℤ}
use split_naira.Lifecycle.{
  ParticipantStatus, SplitState, Collaborator, ProjectSnapshot, PaymentStatus, PaymentRecord,
  CancellationSnapshot, same_address, derive_split_state, paid, unpaid, completed, pending, failed,
}

pub record ParticipantPaymentStatus : Type 0 where
  pub address : Text
  pub alias : Option Text
  pub basis_points : ℕ
  pub status : ParticipantStatus
  pub round_id : Option Text
  pub last_updated : Option ℕ

abbrev pub precedence : ParticipantStatus → ℕ
precedence paid = 3
precedence pending = 2
precedence failed = 1
precedence unpaid = 0

abbrev pub status_of : PaymentStatus → ParticipantStatus
status_of completed = paid
status_of pending = ParticipantStatus.pending
status_of failed = ParticipantStatus.failed

-- `record.timestamp > (best.lastUpdated ?? -Infinity)`.
abbrev pub is_after : ℕ → Option ℕ → Bool
is_after t none = true
is_after t (some last) = ltb last t

-- One round of the loop over a participant's records.
consider : ParticipantPaymentStatus → PaymentRecord → ParticipantPaymentStatus
consider best r =
    let candidate = precedence (status_of r.status) in
    if ltb (precedence best.status) candidate
      || (candidate == precedence best.status && is_after r.timestamp best.last_updated)
    then record best {
      status = status_of r.status;
      round_id = some r.round_id;
      last_updated = some r.timestamp;
    }
    else best

pub consider_all : ParticipantPaymentStatus → List PaymentRecord → ParticipantPaymentStatus
unfolding consider
consider_all best [] = best
consider_all best (r ∷ rs) = consider_all (consider best r) rs

pub payments_of : Collaborator → List PaymentRecord → List PaymentRecord
unfolding same_address
payments_of c payments = filter (λ p. same_address p.recipient c.address) payments

-- The value that the loop starts from.
abbrev pub unattempted : Collaborator → ParticipantPaymentStatus
unattempted c = record {
  address = c.address;
  alias = c.alias;
  basis_points = c.basis_points;
  status = unpaid;
  round_id = none;
  last_updated = none;
}

pub derive_participant : List PaymentRecord → Collaborator → ParticipantPaymentStatus
unfolding consider_all payments_of
derive_participant payments c = consider_all (unattempted c) (payments_of c payments)

unfoldable pub derive_participant_statuses :
    List Collaborator → List PaymentRecord → List ParticipantPaymentStatus
unfolding derive_participant
derive_participant_statuses collaborators payments = map (derive_participant payments) collaborators

pub record SplitCompletionSummary : Type 0 where
  pub state : SplitState
  pub paid_count : ℕ
  pub total_participants : ℕ
  pub all_participants_paid : Bool
  pub outstanding_basis_points : ℕ

abbrev pub is_paid : ParticipantPaymentStatus → Bool
is_paid p = precedence p.status == 3

-- The clock of `deriveSplitState` is read at the call: `now`.
unfoldable pub summarise_completion :
    ProjectSnapshot → List PaymentRecord → Option CancellationSnapshot → ℕ → SplitCompletionSummary
summarise_completion project payments cancellation now =
    let participants = derive_participant_statuses project.collaborators payments in
    let paid_ones = filter is_paid participants in
    record {
      state = derive_split_state project cancellation now;
      paid_count = length paid_ones;
      total_participants = length participants;
      all_participants_paid =
          ltb 0 (length participants) && (length paid_ones == length participants);
      outstanding_basis_points =
          sum_by (λ p. p.basis_points) (filter (λ p. not (is_paid p)) participants);
    }
