-- ===== src/Client/Submissions.antt =====
-- Keys of submissions and the history of failures in the browser
-- (frontend/src/lib/submission-guard.ts, frontend/src/lib/toast-history.ts).
use split_naira.Prelude.{
  ℕ, zero, suc, ◌+◌, ◌-◌, ◌≤◌, ◌≡◌, refl, ap, ◌∙◌, Text, text_eq_iff, text_eq_refl, true, List, [],
  ◌∷◌, ◌++◌, Option, none, some, arith, if_elim, length, drop,
}
use split_naira.Client.{
  IdempotencyKeyStore, is_current, key_for_payload, ToastHistoryEntry, ToastStorage,
  toast_history_limit, last_of, read_toast_history, append_toast_history,
}

-- Attempts at the same payload, each with the key that would be drawn for it.
unfoldable pub attempt_keys : Text → List Text → IdempotencyKeyStore → List Text
unfolding key_for_payload
attempt_keys fingerprint [] store = []
attempt_keys fingerprint (generated ∷ others) store =
    let (next, key) = key_for_payload generated fingerprint store in
    key ∷ attempt_keys fingerprint others next

abbrev pub AllSame : Text → List Text → Type 0
AllSame key [] = Unit
AllSame key (other ∷ others) = (other ≡ key) × AllSame key others

same_fingerprint :
    (held : Option Text) (fingerprint : Text)
    → is_current held fingerprint ≡ true
    → held ≡ some fingerprint
same_fingerprint none fingerprint h = absurd (cc h)
same_fingerprint (some f) fingerprint h = ap some ((text_eq_iff f fingerprint).0 h)

current-AllSame :
    (fingerprint : Text) (generated : List Text) (store : IdempotencyKeyStore)
    → store.fingerprint ≡ some fingerprint
    → AllSame store.key (attempt_keys fingerprint generated store)
unfolding attempt_keys key_for_payload
current-AllSame fingerprint [] store h = tt
current-AllSame fingerprint (g ∷ gs) store h =
    let held : is_current store.fingerprint fingerprint ≡ true =
      ap (λ f. is_current f fingerprint) h ∙ text_eq_refl fingerprint in
    rw (held) (refl, current-AllSame fingerprint gs store h)

-- Whatever the store held and whatever keys would be drawn, all attempts at one payload that follow
-- each other are given the key of the first.
attempt_keys-AllSame :
    (fingerprint first : Text) (others : List Text) (store : IdempotencyKeyStore)
    → AllSame
        (key_for_payload first fingerprint store).1
        (attempt_keys fingerprint (first ∷ others) store)
unfolding attempt_keys key_for_payload
attempt_keys-AllSame fingerprint first others store =
    if_elim
      (λ (drawn : IdempotencyKeyStore × Text).
        AllSame drawn.1 (drawn.1 ∷ attempt_keys fingerprint others drawn.0))
      (is_current store.fingerprint fingerprint)
      (λ held. (
        refl,
        current-AllSame fingerprint others store
            (same_fingerprint store.fingerprint fingerprint held),
      ))
      (λ _. (
        refl,
        current-AllSame fingerprint others (record { fingerprint = some fingerprint; key = first })
            refl,
      ))

length-dropped : {A : Type 0} (xs : List A) (k n : ℕ) → length xs ≤ k + n → length (drop k xs) ≤ n
length-dropped xs zero n h = omega (arith, h)
length-dropped [] (suc k) n h = omega arith
length-dropped (x ∷ xs) (suc k) n h = length-dropped xs k n (omega (arith, h))

length-last_of : {A : Type 0} (n : ℕ) (xs : List A) → length (last_of n xs) ≤ n
length-last_of n xs = length-dropped xs (length xs - n) n (omega arith)

-- No append leaves more than 20 entries in the history.
length-append_toast_history :
    (entry : ToastHistoryEntry) (storage : Option ToastStorage)
    → length (append_toast_history entry storage).0 ≤ toast_history_limit
unfolding append_toast_history
length-append_toast_history entry storage =
    length-last_of toast_history_limit (read_toast_history storage ++ (entry ∷ []))
