-- ===== src/Accounts/Cooldown/Pauses.antt =====
-- Lookups and acquisitions of the resend cooldown
-- (backend/src/services/verification-resend-cooldown.ts).
use split_naira.Prelude.{
  ℕ, ◌+◌, ◌-◌, ◌≡◌, refl, sym, subst, ap, ◌∙◌, Text, text_eq, text_eq_iff, List, [], ◌∷◌, Option,
  none, some, arith, ltb, leb, Bool-cases, inl, inr, if◌then◌else◌, map,
}
use split_naira.Prelude.Dict.{get, get-delete, get-set_self}
use split_naira.Accounts.Cooldown.{
  CooldownResult, acquired, retry_after, Pauses, key_for, prune_key, prune_keys, prune, acquire_at,
  try_acquire,
}

-- What a lookup sees of a pause.
abbrev running : Option ℕ → ℕ → Option ℕ
running none now = none
running (some allowed_at) now = if leb allowed_at now then none else some allowed_at

key_running :
    (pauses : Pauses) (key j : Text) (found : Option ℕ) (now : ℕ)
    → get key pauses ≡ found
    → running (get j (prune_key pauses key found now)) now ≡ running (get j pauses) now
unfolding prune_key
key_running pauses key j none now h = refl
key_running pauses key j (some t) now h = elim (Bool-cases (leb t now)) [
  | inr ahead ↦ rw ahead refl
  | inl over ↦ elim (Bool-cases (text_eq key j)) [
    | inr other ↦ rw (over, get-delete, other) refl
    | inl same ↦
        let here : get j pauses ≡ some t = rw ((text_eq_iff key j).0 same) at h in
        rw (over, get-delete, same, here, over) refl
  ]
]

keys_running :
    (keys : List Text) (pauses : Pauses) (j : Text) (now : ℕ)
    → running (get j (prune_keys keys pauses now)) now ≡ running (get j pauses) now
unfolding prune_keys
keys_running [] pauses j now = refl
keys_running (key ∷ keys) pauses j now =
    keys_running keys (prune_key pauses key (get key pauses) now) j now
    ∙ key_running pauses key j (get key pauses) now refl

abbrev outcome : Option ℕ → ℕ → CooldownResult
outcome none now = acquired
outcome (some allowed_at) now = retry_after (allowed_at - now)

acquire_outcome :
    (pauses : Pauses) (key : Text) (found : Option ℕ) (cooldown_ms now : ℕ)
    → (acquire_at pauses key found cooldown_ms now).1 ≡ outcome (running found now) now
unfolding acquire_at
acquire_outcome pauses key none cooldown_ms now = refl
acquire_outcome pauses key (some t) cooldown_ms now = ground arith

try_outcome :
    (pauses : Pauses) (email : Text) (cooldown_ms now : ℕ)
    → (try_acquire pauses email cooldown_ms now).1
      ≡ outcome (running (get (key_for email) pauses) now) now
unfolding try_acquire prune
try_outcome pauses email cooldown_ms now =
    acquire_outcome _ (key_for email) (get (key_for email) (prune pauses now)) cooldown_ms now
    ∙ ap (λ r. outcome r now) (keys_running (map (λ p. p.0) pauses) pauses (key_for email) now)

acquire_stores :
    (pauses : Pauses) (key : Text) (found : Option ℕ) (cooldown_ms now : ℕ)
    → (acquire_at pauses key found cooldown_ms now).1 ≡ acquired
    → get key (acquire_at pauses key found cooldown_ms now).0 ≡ some (now + cooldown_ms)
unfolding acquire_at
acquire_stores pauses key none cooldown_ms now h = get-set_self key _ pauses
acquire_stores pauses key (some t) cooldown_ms now h = elim (Bool-cases (ltb now t)) [
  | inl waits ↦ absurd (cc (rw waits at h))
  | inr free ↦ rw free (get-set_self key (now + cooldown_ms) pauses)
]

-- After a mail was allowed, another one to an address with the same key, that is the same but for
-- case and surrounding white space, is refused until the cooldown is over, with the exact time
-- that is left, and is allowed from then on.
try_acquire_again :
    (pauses : Pauses) (email other : Text) (cooldown_ms now later : ℕ)
    → (try_acquire pauses email cooldown_ms now).1 ≡ acquired
    → key_for other ≡ key_for email
    → (try_acquire (try_acquire pauses email cooldown_ms now).0 other cooldown_ms later).1 ≡ (
        if ltb later (now + cooldown_ms) then retry_after (now + cooldown_ms - later) else acquired)
unfolding try_acquire
try_acquire_again pauses email other cooldown_ms now later h same =
    let after = (try_acquire pauses email cooldown_ms now).0 in
    let stored : get (key_for other) after ≡ some (now + cooldown_ms) = rw same (
      acquire_stores (prune pauses now) (key_for email) (get (key_for email) (prune pauses now))
        cooldown_ms now h) in
    try_outcome after other cooldown_ms later
    ∙ subst
        (λ x. outcome (running x later) later ≡ (
          if ltb later (now + cooldown_ms)
          then retry_after (now + cooldown_ms - later)
          else acquired))
        (sym stored) (ground arith)
