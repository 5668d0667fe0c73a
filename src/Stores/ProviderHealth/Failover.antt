-- ===== src/Stores/ProviderHealth/Failover.antt =====
-- Which provider the next request goes to.
use split_naira.Prelude.{
  ℕ, ◌≤◌, ◌<◌, ◌≡◌, ◌⊎◌, refl, Text, List, [], ◌∷◌, arith, leb, Bool-cases, inl, inr, find, ok, err,
}
use split_naira.Stores.ProviderHealth.{
  RpcProviderStatus, RpcProviderHealthPolicy, all_unavailable, next, url_or,
}

-- The first provider, in the configured order, whose cooldown is over.
abbrev pub IsFirstEligible : List RpcProviderStatus → ℕ → Text → Type 0
IsFirstEligible [] now u = ⊥
IsFirstEligible (s ∷ ss) now u =
    ((s.unhealthy_until ≤ now) × (s.url ≡ u))
    ⊎ ((now < s.unhealthy_until) × IsFirstEligible ss now u)

abbrev pub AllQuarantined : List RpcProviderStatus → ℕ → Type 0
AllQuarantined [] now = Unit
AllQuarantined (s ∷ ss) now = (now < s.unhealthy_until) × AllQuarantined ss now

next_from :
    (ss : List RpcProviderStatus) (now : ℕ)
    → ((u : Text) × (url_or (find (λ s. leb s.unhealthy_until now) ss) ≡ ok u)
        × IsFirstEligible ss now u)
      ⊎ ((url_or (find (λ s. leb s.unhealthy_until now) ss) ≡ err all_unavailable)
          × AllQuarantined ss now)
next_from [] now = inr (refl, tt)
next_from (s ∷ ss) now = elim (Bool-cases (leb s.unhealthy_until now)) [
  | inl eligible ↦ rw eligible (inl (s.url, refl, inl (ground arith, refl)))
  | inr quarantined ↦ rw quarantined (elim (next_from ss now) [
    | inl (u, found, first) ↦ inl (u, found, inr (ground arith, first))
    | inr (none_left, all) ↦ inr (none_left, (ground arith, all))
  ])
]

-- The next request goes to the first provider in the configured order that is not in quarantine, and
-- fails only where every provider is in quarantine.
next-IsFirstEligible :
    (p : RpcProviderHealthPolicy) (now : ℕ)
    → ((u : Text) × (next p now ≡ ok u) × IsFirstEligible p.providers now u)
      ⊎ ((next p now ≡ err all_unavailable) × AllQuarantined p.providers now)
unfolding next
next-IsFirstEligible p now = next_from p.providers now
