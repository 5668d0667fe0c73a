-- ===== src/Lifecycle.antt =====
-- Split lifecycle derivation (backend/src/lib/split-lifecycle.ts): the state of a split, the
-- actions that it permits, and the payment status of each participant.
pub mod Actions
pub mod States
pub mod Participants
use Prim.Native.Nat.{◌≤◌}
use split_naira.Prelude.{
  ℕ, zero, suc, ◌+◌, ◌-◌, ◌*◌, Text, text_eq, trim, to_upper_case, is_empty, Bool, true, false,
  ◌&&◌, ◌||◌, not, List, [], ◌∷◌, map, Option, none, some, ltb, leb, ◌==◌, if◌then◌else◌, filter,
  length, sum_by, Result, ok, err, or_else, is_some,
}
use split_naira.Prelude.Int.{ℤ, pos, negsuc, negate_ℕ, is_positive, is_zero_ℤ}

pub data ParticipantStatus : Type 0 where
  paid pending failed unpaid : ParticipantStatus

pub data SplitState : Type 0 where
  draft active distributing settled cancelled expired : SplitState

pub record Collaborator : Type 0 where
  pub address : Text
  pub alias : Option Text
  pub basis_points : ℕ

-- `string | number | bigint`; a number stands as its integer part.
pub data Quantity : Type 0 where
  string : Text → Quantity
  number : ℤ → Quantity
  bigint : ℤ → Quantity

-- A deadline is what `new Date(…).getTime()` reads: a time, or `NaN` for an invalid one.
pub data Deadline : Type 0 where
  at : ℕ → Deadline
  not_a_date : Deadline

pub record ProjectSnapshot : Type 0 where
  pub project_id : Text
  pub locked : Bool
  pub balance : Quantity
  pub total_distributed : Quantity
  pub distribution_round : ℕ
  pub collaborators : List Collaborator
  pub is_draft : Bool
  pub expires_at : Option Deadline

pub data PaymentStatus : Type 0 where
  pending completed failed : PaymentStatus

pub record PaymentRecord : Type 0 where
  pub recipient : Text
  pub status : PaymentStatus
  pub round_id : Text
  pub timestamp : ℕ

pub record CancellationSnapshot : Type 0 where
  pub cancelled_at : ℕ
  pub cancelled_by : Text
  pub reason : Option Text

-- `BigInt(text)` on a trimmed text: decimal digits with an optional sign, or a hexadecimal, octal
-- or binary literal; `none` where it throws.
digit_value : ℕ → ℕ
digit_value c =
    if leb b'0' c && leb c b'9'
    then c - b'0'
    else if leb b'a' c && leb c b'z'
    then c - b'a' + 10
    else if leb b'A' c && leb c b'Z'
    then c - b'A' + 10
    else 36

digits_from : ℕ → ℕ → Text → Option ℕ
unfolding digit_value
digits_from base acc [] = some acc
digits_from base acc (c ∷ s) =
    let rest = digits_from base (acc * base + digit_value c) s in
    if ltb (digit_value c) base then rest else none

read_digits : ℕ → Text → Option ℕ
unfolding digits_from
read_digits base [] = none
read_digits base (c ∷ s) = digits_from base 0 (c ∷ s)

signed : (ℕ → ℤ) → Option ℕ → Option ℤ
signed sign none = none
signed sign (some n) = some (sign n)

-- The literals that begin with `0x`, `0o` or `0b`.
prefixed : ℕ → Text → Option ℤ → Option ℤ
unfolding read_digits signed
prefixed c s decimal =
    if c == b'x' || c == b'X'
    then signed pos (read_digits 16 s)
    else if c == b'o' || c == b'O'
    then signed pos (read_digits 8 s)
    else if c == b'b' || c == b'B'
    then signed pos (read_digits 2 s)
    else decimal

parse_bigint : Text → Option ℤ
unfolding read_digits signed prefixed
parse_bigint [] = some (pos 0)
parse_bigint (c ∷ []) = signed pos (read_digits 10 (c ∷ []))
parse_bigint (c ∷ d ∷ s) =
    if c == b'+'
    then signed pos (read_digits 10 (d ∷ s))
    else if c == b'-'
    then signed negate_ℕ (read_digits 10 (d ∷ s))
    else if c == b'0'
    then prefixed d s (signed pos (read_digits 10 (c ∷ d ∷ s)))
    else signed pos (read_digits 10 (c ∷ d ∷ s))

unfoldable pub to_bigint : Quantity → ℤ
unfolding parse_bigint
to_bigint (bigint n) = n
to_bigint (number n) = n
to_bigint (string value) = or_else (parse_bigint (trim value)) (pos 0)

pub same_address : Text → Text → Bool
same_address a b = text_eq (to_upper_case (trim a)) (to_upper_case (trim b))

abbrev pub is_past : Option Deadline → ℕ → Bool
is_past none now = false
is_past (some not_a_date) now = false
is_past (some (at deadline)) now = leb deadline now

unfoldable pub derive_split_state : ProjectSnapshot → Option CancellationSnapshot → ℕ → SplitState
derive_split_state project cancellation now =
    if is_some cancellation
    then cancelled
    else if project.is_draft
    then draft
    else if is_past project.expires_at now
    then expired
    else if project.locked
    then (if is_positive (to_bigint project.balance) then distributing else settled)
    else if is_positive (to_bigint project.total_distributed)
        && is_zero_ℤ (to_bigint project.balance)
    then settled
    else if is_zero_ℤ (to_bigint project.total_distributed) && is_zero_ℤ (to_bigint project.balance)
    then draft
    else active

unfoldable pub is_terminal : SplitState → Bool
is_terminal settled = true
is_terminal cancelled = true
is_terminal expired = true
is_terminal _ = false

pub data SplitAction : Type 0 where
  read deposit update_metadata update_collaborators lock distribute cancel : SplitAction

unfoldable pub is_action_allowed : SplitState → SplitAction → Bool
is_action_allowed state read = true
is_action_allowed cancelled action = false
is_action_allowed settled action = false
is_action_allowed expired action = false
is_action_allowed distributing distribute = true
is_action_allowed distributing action = false
is_action_allowed draft action = true
is_action_allowed active action = true

-- `split_not_mutable`, with the state and the action that it names.
pub record SplitNotMutable : Type 0 where
  pub state : SplitState
  pub action : SplitAction

unfoldable pub assert_action_allowed : SplitState → SplitAction → Result SplitNotMutable (Unit {0})
unfolding is_action_allowed
assert_action_allowed state action =
    if is_action_allowed state action
    then ok tt
    else err (record { state = state; action = action })

unfoldable pub is_cancellable : SplitState → Bool
unfolding is_action_allowed
is_cancellable state = is_action_allowed state cancel

unfoldable pub is_financial_action_allowed : SplitState → Bool
is_financial_action_allowed active = true
is_financial_action_allowed distributing = true
is_financial_action_allowed _ = false
