-- ===== src/Stores/ProviderHealth.antt =====
-- The health of the RPC providers (backend/src/services/rpc-provider-health.ts). Whether a text is
-- a URL and its protocol are parameters; thresholds and times are natural numbers.
pub mod Failover
use split_naira.Prelude.{
  ℕ, ◌+◌, Text, codes, text_eq, trim, is_empty, Bool, true, false, ◌&&◌, ◌||◌, not, List, [], ◌∷◌,
  ◌++◌, Option, none, some, leb, ltb, if◌then◌else◌, filter, find, any, map, or_else, Result, ok,
  err, ◌==◌,
}

pub record RpcProviderStatus : Type 0 where
  pub url : Text
  pub consecutive_failures : ℕ
  pub unhealthy_until : ℕ

pub record RpcProviderHealthPolicy : Type 0 where
  pub providers : List RpcProviderStatus
  pub failure_threshold : ℕ
  pub cooldown_ms : ℕ

pub data ProviderError : Type 0 where
  no_provider not_a_url not_http all_unavailable unknown_provider : ProviderError

-- `[...new Set(urls)]`: the first occurrence of each.
pub unique_from : List Text → List Text → List Text
unique_from seen [] = []
unique_from seen (u ∷ us) =
    let skip = unique_from seen us in
    let keep = unique_from (u ∷ seen) us in if any (text_eq u) seen then skip else u ∷ keep

unfoldable pub unique_urls : List Text → List Text
unfolding unique_from
unique_urls urls = unique_from [] (filter (λ u. not (is_empty u)) (map trim urls))

-- `parsed.protocol`, or nothing for a text that is not a URL.
abbrev pub url_error : (Text → Option Text) → Text → Option ProviderError
url_error protocol u = elim (protocol u) [
  | none ↦ some not_a_url
  | some p ↦ if text_eq p (codes "https:") || text_eq p (codes "http:") then none else some not_http
]

pub first_error : (Text → Option Text) → List Text → Option ProviderError
first_error protocol [] = none
first_error protocol (u ∷ us) =
    let rest = first_error protocol us in
    elim (url_error protocol u) [ none ↦ rest | some e ↦ some e ]

abbrev pub max : ℕ → ℕ → ℕ
max a b = if ltb a b then b else a

abbrev pub fresh_status : Text → RpcProviderStatus
fresh_status u = record { url = u; consecutive_failures = 0; unhealthy_until = 0 }

abbrev pub no_urls : List Text → Bool
no_urls [] = true
no_urls (_ ∷ _) = false

pub policy_unless :
    Option ProviderError
    → List Text
    → Option ℕ
    → Option ℕ
    → Result ProviderError RpcProviderHealthPolicy
policy_unless (some e) urls threshold cooldown = err e
policy_unless none urls threshold cooldown = ok (record {
  providers = map fresh_status urls;
  failure_threshold = max 1 (or_else threshold 1);
  cooldown_ms = max 1 (or_else cooldown 30000);
})

unfoldable pub new_policy :
    (Text → Option Text)
    → List Text
    → Option ℕ
    → Option ℕ
    → Result ProviderError RpcProviderHealthPolicy
unfolding unique_urls first_error policy_unless
new_policy protocol urls threshold cooldown =
    if no_urls (unique_urls urls)
    then err no_provider
    else policy_unless (first_error protocol (unique_urls urls)) (unique_urls urls) threshold
        cooldown

abbrev pub url_or : Option RpcProviderStatus → Result ProviderError Text
url_or none = err all_unavailable
url_or (some s) = ok s.url

unfoldable pub next : RpcProviderHealthPolicy → ℕ → Result ProviderError Text
next p now = url_or (find (λ s. leb s.unhealthy_until now) p.providers)

-- The record that `find` returns is changed in place: the first with this URL.
pub update_provider :
    Text → (RpcProviderStatus → RpcProviderStatus) → List RpcProviderStatus → List RpcProviderStatus
update_provider u f [] = []
update_provider u f (s ∷ ss) =
    let rest = update_provider u f ss in if text_eq s.url u then f s ∷ ss else s ∷ rest

pub record_at :
    RpcProviderHealthPolicy
    → Text
    → (RpcProviderStatus → RpcProviderStatus)
    → Result ProviderError RpcProviderHealthPolicy
unfolding update_provider
record_at p u f =
    if any (λ s. text_eq s.url u) p.providers
    then ok (record p { providers = update_provider u f p.providers })
    else err unknown_provider

abbrev pub succeeded : RpcProviderStatus → RpcProviderStatus
succeeded s = record s { consecutive_failures = 0; unhealthy_until = 0 }

unfoldable pub record_success :
    RpcProviderHealthPolicy → Text → Result ProviderError RpcProviderHealthPolicy
unfolding record_at
record_success p u = record_at p u succeeded

abbrev pub failed : ℕ → ℕ → ℕ → RpcProviderStatus → RpcProviderStatus
failed threshold cooldown now s =
    if leb threshold (s.consecutive_failures + 1)
    then record s {
      consecutive_failures = s.consecutive_failures + 1;
      unhealthy_until = now + cooldown;
    }
    else record s { consecutive_failures = s.consecutive_failures + 1 }

unfoldable pub record_failure :
    RpcProviderHealthPolicy → Text → ℕ → Result ProviderError RpcProviderHealthPolicy
unfolding record_at
record_failure p u now = record_at p u (failed p.failure_threshold p.cooldown_ms now)

-- What the interceptor of the responses takes for a failure of the transport.
abbrev pub is_transport_failure : Option ℕ → Bool
is_transport_failure none = true
is_transport_failure (some status) = status == 429 || leb 500 status

-- `(backups ?? "").split(",")`.
pub split_commas : Text → Text → List Text
split_commas piece [] = piece ∷ []
split_commas piece (c ∷ s) =
    let next_piece = split_commas [] s in
    let same_piece = split_commas (piece ++ c ∷ []) s in
    if c == b',' then piece ∷ next_piece else same_piece

unfoldable pub parse_rpc_provider_urls : Text → Option Text → Result ProviderError (List Text)
unfolding split_commas unique_urls
parse_rpc_provider_urls primary backups =
    let unique = unique_urls (primary ∷ split_commas [] (or_else backups [])) in
    if no_urls unique then err no_provider else ok unique
