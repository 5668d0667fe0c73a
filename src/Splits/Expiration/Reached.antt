-- ===== src/Splits/Expiration/Reached.antt =====
-- The guard before a financial action, and the event that it leaves.
use split_naira.Prelude.{
  ℕ, ◌≡◌, ◌+◌, ◌≤◌, ◌↔◌, ◌⊎◌, refl, Text, Bool, true, false, Option, none, some, arith, ok, err,
  Bool-cases, inl, inr, List, [], ◌∷◌, ◌++◌, any, filter, length, text_eq_refl, is_ok,
  if◌then◌else◌, ltb,
}
use split_naira.Prelude.Dict.{get}
use split_naira.Splits.Expiration.{
  Expirations, is_split_expired, assert_not_expired, assert_deadline, is_reached_event, is_due,
  deadline_of, ExpirationLifecycleEvent, reached_event, split_expired,
}

deadline_iff :
    (s : Expirations) (project_id : Text) (d : Option ℕ) (now : ℕ)
    → (is_ok (assert_deadline s project_id d now).1 ≡ false) ↔ (is_due d now ≡ true)
unfolding assert_deadline
deadline_iff s project_id none now = ground arith
deadline_iff s project_id (some t) now = ground arith

-- The events that say that the project has reached its deadline.
abbrev pub reached_count : Text → List ExpirationLifecycleEvent → ℕ
reached_count project_id events = length (filter (is_reached_event project_id) events)

count_append :
    (p : ExpirationLifecycleEvent → Bool) (es : List ExpirationLifecycleEvent)
    (e : ExpirationLifecycleEvent)
    → length (filter p (es ++ e ∷ [])) ≡ length (filter p es) + (if p e then 1 else 0)
count_append p [] e = ground arith
count_append p (x ∷ es) e = ground (arith, count_append p es e)

any_none :
    (p : ExpirationLifecycleEvent → Bool) (es : List ExpirationLifecycleEvent)
    → any p es ≡ false
    → length (filter p es) ≡ 0
any_none p [] h = refl
any_none p (x ∷ es) h = ground (arith, any_none p es)

any_some :
    (p : ExpirationLifecycleEvent → Bool) (es : List ExpirationLifecycleEvent)
    → any p es ≡ true
    → 1 ≤ length (filter p es)
any_some p [] h = cc
any_some p (x ∷ es) h = ground (arith, any_some p es)

deadline_once :
    (s : Expirations) (project_id : Text) (d : Option ℕ) (now : ℕ)
    → reached_count project_id s.events ≤ 1
    → is_due d now ≡ true
    → reached_count project_id (assert_deadline s project_id d now).0.events ≡ 1
unfolding assert_deadline
deadline_once s project_id none now few h = cc
deadline_once s project_id (some t) now few h =
    elim (Bool-cases (any (is_reached_event project_id) s.events)) [
      | inl logged ↦
          let late : ltb now t ≡ false = ground arith in
          rw (late, logged) (ground (arith, any_some (is_reached_event project_id) s.events logged))
      | inr missing ↦
          let late : ltb now t ≡ false = ground arith in
          rw (late, missing)
            (ground (
              arith,
              any_none (is_reached_event project_id) s.events missing,
              count_append (is_reached_event project_id) s.events (reached_event project_id t now),
              text_eq_refl project_id,
            ))
    ]

deadline_open :
    (s : Expirations) (project_id : Text) (d : Option ℕ) (now : ℕ)
    → is_due d now ≡ false
    → assert_deadline s project_id d now ≡ (s, ok tt)
unfolding assert_deadline
deadline_open s project_id none now h = refl
deadline_open s project_id (some t) now h =
    let early : ltb now t ≡ true = ground arith in rw early refl

deadline_closed :
    (s : Expirations) (project_id : Text) (d : Option ℕ) (now : ℕ)
    → is_due d now ≡ true
    → (assert_deadline s project_id d now).1 ≡ err split_expired
unfolding assert_deadline
deadline_closed s project_id none now h = cc
deadline_closed s project_id (some t) now h = ground arith

-- Where at most one event says that a project has reached its deadline: the guard passes and changes
-- nothing before the deadline, and from the deadline on it fails, with exactly one such event in
-- the log afterwards, however often it is asked.
assert_not_expired_once :
    (s : Expirations) (project_id : Text) (now : ℕ)
    → reached_count project_id s.events ≤ 1
    → ((is_split_expired s project_id now ≡ false)
        × (assert_not_expired s project_id now ≡ (s, ok tt)))
      ⊎ ((is_split_expired s project_id now ≡ true)
          × ((assert_not_expired s project_id now).1 ≡ err split_expired)
          × (reached_count project_id (assert_not_expired s project_id now).0.events ≡ 1))
unfolding is_split_expired assert_not_expired
assert_not_expired_once s project_id now few =
    let d = deadline_of (get project_id s.records) in
    elim (Bool-cases (is_due d now)) [
      | inl due ↦
          inr
            (due, deadline_closed s project_id d now due, deadline_once s project_id d now few due)
      | inr ahead ↦ inl (ahead, deadline_open s project_id d now ahead)
    ]
