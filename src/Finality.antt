-- ===== src/Finality.antt =====
-- Transaction finality (backend/src/services/ledger-finality.ts): the policy of each network, the
-- states of a submitted transaction, and the step that one network observation causes.
pub mod Steps
pub mod Conflicts
pub mod Policies
pub mod History
use split_naira.Prelude.{
  ℕ, ◌+◌, ◌-◌, Text, codes, text_eq, trim, Bool, true, false, ◌&&◌, ◌||◌, List, [], ◌∷◌, Option,
  none, some, ltb, leb, ◌==◌, if◌then◌else◌, any, Result, ok, err, ◌>>=◌, or_else,
}
use split_naira.Prelude.Int.{ℤ, pos, negsuc, Number, integer, not_integer, max_safe_integer}

pub data FinalityNetwork : Type 0 where
  mainnet testnet futurenet standalone : FinalityNetwork

-- `Object.entries(STELLAR_NETWORK_PASSPHRASES)`.
abbrev pub stellar_network_passphrases : List (FinalityNetwork × Text)
stellar_network_passphrases =
    (mainnet, codes "Public Global Stellar Network ; September 2015")
    ∷ (testnet, codes "Test SDF Network ; September 2015")
    ∷ (futurenet, codes "Test SDF Future Network ; October 2022")
    ∷ (standalone, codes "Standalone Network ; February 2017")
    ∷ []

pub record NetworkFinalityPolicy : Type 0 where
  pub network : FinalityNetwork
  pub confirmation_depth : ℕ
  pub submission_timeout_ledgers : ℕ
  pub resets_possible : Bool

abbrev pub finality_policies : FinalityNetwork → NetworkFinalityPolicy
finality_policies mainnet = record {
  network = mainnet;
  confirmation_depth = 1;
  submission_timeout_ledgers = 120;
  resets_possible = false;
}
finality_policies testnet = record {
  network = testnet;
  confirmation_depth = 0;
  submission_timeout_ledgers = 120;
  resets_possible = true;
}
finality_policies futurenet = record {
  network = futurenet;
  confirmation_depth = 0;
  submission_timeout_ledgers = 120;
  resets_possible = true;
}
finality_policies standalone = record {
  network = standalone;
  confirmation_depth = 0;
  submission_timeout_ledgers = 60;
  resets_possible = true;
}

pub data FinalityState : Type 0 where
  submitted included final failed expired : FinalityState

pub data FinalityPolicyError : Type 0 where
  unknown_network invalid_observation finality_conflict : FinalityPolicyError

-- `===` on states.
abbrev pub position : FinalityState → ℕ
position submitted = 0
position included = 1
position final = 2
position failed = 3
position expired = 4

abbrev pub state_eq : FinalityState → FinalityState → Bool
state_eq a b = position a == position b

abbrev pub is_terminal_finality_state : FinalityState → Bool
is_terminal_finality_state state = any (state_eq state) (final ∷ failed ∷ expired ∷ [])

abbrev pub allowed_transitions : FinalityState → List FinalityState
allowed_transitions submitted = submitted ∷ included ∷ final ∷ failed ∷ expired ∷ []
allowed_transitions included = included ∷ final ∷ []
allowed_transitions final = final ∷ []
allowed_transitions failed = failed ∷ []
allowed_transitions expired = expired ∷ []

-- The loop over the entries; the passphrase is compared exactly, after trimming.
find_policy :
    List (FinalityNetwork × Text) → Text → Result FinalityPolicyError NetworkFinalityPolicy
find_policy [] trimmed = err unknown_network
find_policy ((network, passphrase) ∷ rest) trimmed =
    let later = find_policy rest trimmed in
    if text_eq passphrase trimmed then ok (finality_policies network) else later

unfoldable pub get_finality_policy : Text → Result FinalityPolicyError NetworkFinalityPolicy
unfolding find_policy
get_finality_policy passphrase = find_policy stellar_network_passphrases (trim passphrase)

unfoldable pub can_transition_finality : FinalityState → FinalityState → Bool
can_transition_finality from to = any (state_eq to) (allowed_transitions from)

pub data TransactionStatus : Type 0 where
  pending completed failed : TransactionStatus

unfoldable pub to_transaction_status : FinalityState → TransactionStatus
to_transaction_status final = TransactionStatus.completed
to_transaction_status failed = TransactionStatus.failed
to_transaction_status expired = TransactionStatus.failed
to_transaction_status _ = TransactionStatus.pending

pub data LookupStatus : Type 0 where
  not_found success failure : LookupStatus

pub record FinalityObservation : Type 0 where
  pub status : LookupStatus
  pub ledger : Option Number

pub record EvaluateFinalityInput : Type 0 where
  pub policy : NetworkFinalityPolicy
  pub previous : Option FinalityState
  pub observation : FinalityObservation
  pub latest_ledger : Number
  pub submitted_at_ledger : Number
  pub valid_until_ledger : Option Number

pub record FinalityEvaluation : Type 0 where
  pub state : FinalityState
  pub transaction_status : TransactionStatus
  pub depth : Option ℕ
  pub regression_ignored : Bool

unfoldable pub assert_ledger : Option Number → Result FinalityPolicyError ℕ
assert_ledger (some (integer (pos n))) =
    if ltb 0 n && leb n max_safe_integer then ok n else err invalid_observation
assert_ledger _ = err invalid_observation

-- The check of `validUntilLedger`, which may be undefined.
unfoldable pub assert_bound : Option Number → Result FinalityPolicyError (Option ℕ)
unfolding assert_ledger
assert_bound none = ok none
assert_bound (some n) = do v ← assert_ledger (some n); ok (some v)

-- `latest - submittedAt > timeout` is over signed numbers; the sum says the same.
is_expired : NetworkFinalityPolicy → ℕ → ℕ → Option ℕ → Bool
is_expired policy latest submitted_at none =
    ltb (submitted_at + policy.submission_timeout_ledgers) latest
is_expired policy latest submitted_at (some valid_until) = ltb valid_until latest

-- `Math.max(0, latestLedger - ledger)` is truncated subtraction.
pub observe :
    NetworkFinalityPolicy
    → LookupStatus
    → Option Number
    → ℕ
    → ℕ
    → Option ℕ
    → Result FinalityPolicyError (FinalityState × Option ℕ)
unfolding assert_ledger is_expired
observe policy not_found ledger latest submitted_at valid_until =
    ok (if is_expired policy latest submitted_at valid_until then expired else submitted, none)
observe policy failure ledger latest submitted_at valid_until = do
  l ← assert_ledger ledger
  ok (failed, some (latest - l))
observe policy success ledger latest submitted_at valid_until = do
  l ← assert_ledger ledger
  ok (if leb policy.confirmation_depth (latest - l) then final else included, some (latest - l))

-- The lagging reads, which are ignored.
is_lagging_read : FinalityState → FinalityState → Bool
is_lagging_read previous next =
    (state_eq previous included && state_eq next submitted)
    || (state_eq previous final && (state_eq next included || state_eq next submitted))
    || (state_eq previous expired && state_eq next submitted)

pub decide_next :
    FinalityState → FinalityState × Option ℕ → Result FinalityPolicyError FinalityEvaluation
unfolding can_transition_finality to_transaction_status is_lagging_read
decide_next previous (next, depth) =
    if can_transition_finality previous next
    then ok (record {
      state = next;
      transaction_status = to_transaction_status next;
      depth = depth;
      regression_ignored = false;
    })
    else if is_lagging_read previous next
    then ok (record {
      state = previous;
      transaction_status = to_transaction_status previous;
      depth = depth;
      regression_ignored = true;
    })
    else err finality_conflict

-- What follows the checks of the ledger numbers.
pub evaluate_at :
    EvaluateFinalityInput → ℕ → ℕ → Option ℕ → Result FinalityPolicyError FinalityEvaluation
unfolding observe decide_next
evaluate_at input latest submitted_at valid_until = do
  next ←
      observe input.policy input.observation.status input.observation.ledger latest submitted_at
        valid_until
  decide_next (or_else input.previous submitted) next

unfoldable pub evaluate_finality :
    EvaluateFinalityInput → Result FinalityPolicyError FinalityEvaluation
unfolding evaluate_at assert_ledger assert_bound
evaluate_finality input = do
  latest ← assert_ledger (some input.latest_ledger)
  submitted_at ← assert_ledger (some input.submitted_at_ledger)
  valid_until ← assert_bound input.valid_until_ledger
  evaluate_at input latest submitted_at valid_until
