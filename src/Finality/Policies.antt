-- ===== src/Finality/Policies.antt =====
-- Which policy a network passphrase selects.
use split_naira.Prelude.{
  ◌≡◌, ◌↔◌, ◌⊎◌, Text, trim, text_eq, text_eq_iff, List, [], ◌∷◌, arith, ok, Bool-cases, inl, inr,
}
use split_naira.Finality.{
  FinalityNetwork, NetworkFinalityPolicy, stellar_network_passphrases, finality_policies,
  find_policy, get_finality_policy,
}

-- An entry of the table that has the passphrase.
abbrev pub Names : Text → NetworkFinalityPolicy → FinalityNetwork × Text → Type 0
Names t policy (network, passphrase) = (passphrase ≡ t) × (policy ≡ finality_policies network)

abbrev pub Exists : (FinalityNetwork × Text → Type 0) → List (FinalityNetwork × Text) → Type 0
Exists P [] = ⊥
Exists P (x ∷ xs) = P x ⊎ Exists P xs

find_policy_found :
    (table : List (FinalityNetwork × Text)) (t : Text) {policy : NetworkFinalityPolicy}
    → find_policy table t ≡ ok policy
    → Exists (Names t policy) table
unfolding find_policy
find_policy_found [] t h = cc
find_policy_found ((network, passphrase) ∷ rest) t h = elim (Bool-cases (text_eq passphrase t)) [
  | inl same ↦ inl ((text_eq_iff passphrase t).0 same, ground arith)
  | inr other ↦ inr (find_policy_found rest t (ground arith))
]

find_policy_listed :
    (t : Text) {policy : NetworkFinalityPolicy}
    → Exists (Names t policy) stellar_network_passphrases
    → find_policy stellar_network_passphrases t ≡ ok policy
unfolding find_policy text_eq
find_policy_listed t (inl (e, q)) = rw (← e, q)
find_policy_listed t (inr (inl (e, q))) = rw (← e, q)
find_policy_listed t (inr (inr (inl (e, q)))) = rw (← e, q)
find_policy_listed t (inr (inr (inr (inl (e, q))))) = rw (← e, q)
find_policy_listed t (inr (inr (inr (inr h)))) = absurd h

-- A policy is returned exactly when the trimmed passphrase is one of the four of the table, and
-- is then that network's policy.
pub get_finality_policy_iff :
    (passphrase : Text) (policy : NetworkFinalityPolicy)
    → (get_finality_policy passphrase ≡ ok policy)
      ↔ Exists (Names (trim passphrase) policy) stellar_network_passphrases
unfolding get_finality_policy
get_finality_policy_iff passphrase policy = (
  λ h. find_policy_found stellar_network_passphrases (trim passphrase) h,
  λ h. find_policy_listed (trim passphrase) h,
)
