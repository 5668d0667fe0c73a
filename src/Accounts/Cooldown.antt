-- ===== src/Accounts/Cooldown.antt =====
-- The pause between verification mails (backend/src/services/verification-resend-cooldown.ts). The
-- clock is an argument; the configured text is read as a number outside the model.
pub mod Pauses
use split_naira.Prelude.{
  ℕ, ◌+◌, ◌-◌, Text, trim, to_lower_case, is_empty, Bool, true, false, ◌&&◌, not, List, [], ◌∷◌,
  Option, none, some, ltb, leb, if◌then◌else◌, map,
}
use split_naira.Prelude.Dict.{Dict, get, set, delete}

pub data CooldownResult : Type 0 where
  acquired : CooldownResult
  retry_after : ℕ → CooldownResult

abbrev pub default_cooldown_ms : ℕ
default_cooldown_ms = 60000

-- `parse` is JavaScript's `Number`, with nothing for what is not a positive finite number.
unfoldable pub resolve_resend_cooldown_ms : (Text → Option ℕ) → Option Text → ℕ
resolve_resend_cooldown_ms parse none = default_cooldown_ms
resolve_resend_cooldown_ms parse (some raw) = elim (parse raw) [
  | none ↦ default_cooldown_ms
  | some n ↦ if not (is_empty raw) && ltb 0 n then n else default_cooldown_ms
]

abbrev pub Pauses : Type 0
Pauses = Dict ℕ

unfoldable pub key_for : Text → Text
key_for email = to_lower_case (trim email)

pub prune_key : Pauses → Text → Option ℕ → ℕ → Pauses
prune_key pauses key none now = pauses
prune_key pauses key (some allowed_at) now =
    if leb allowed_at now then delete key pauses else pauses

-- The loop over the map, by its keys.
pub prune_keys : List Text → Pauses → ℕ → Pauses
unfolding prune_key
prune_keys [] pauses now = pauses
prune_keys (key ∷ keys) pauses now = prune_keys keys (prune_key pauses key (get key pauses) now) now

unfoldable pub prune : Pauses → ℕ → Pauses
unfolding prune_keys
prune pauses now = prune_keys (map (λ p. p.0) pauses) pauses now

pub acquire_at : Pauses → Text → Option ℕ → ℕ → ℕ → Pauses × CooldownResult
acquire_at pauses key none cooldown_ms now = (set key (now + cooldown_ms) pauses, acquired)
acquire_at pauses key (some allowed_at) cooldown_ms now =
    if ltb now allowed_at
    then (pauses, retry_after (allowed_at - now))
    else (set key (now + cooldown_ms) pauses, acquired)

unfoldable pub try_acquire : Pauses → Text → ℕ → ℕ → Pauses × CooldownResult
unfolding acquire_at prune key_for
try_acquire pauses email cooldown_ms now =
    acquire_at (prune pauses now) (key_for email) (get (key_for email) (prune pauses now))
      cooldown_ms now

unfoldable pub release : Pauses → Text → Pauses
unfolding key_for
release pauses email = delete (key_for email) pauses

unfoldable pub clear : Pauses
clear = []
