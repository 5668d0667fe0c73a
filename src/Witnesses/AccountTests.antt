-- ===== src/Witnesses/AccountTests.antt =====
-- Sign-ins and verification mails at concrete inputs.
use split_naira.Prelude.{◌≡◌, refl, codes, trim, to_lower_case, List, [], ◌∷◌}
use split_naira.Prelude.Dict.{get}
use split_naira.Accounts.LoginAttempts.Limits.{
  IsBounded, LoginEvent, begin, login_steps, IsPossible, ArePossible, login_steps-IsBounded,
}
use split_naira.Accounts.Cooldown.{acquired, key_for, try_acquire}

-- Six sign-ins of one wallet at once, of which the sixth is refused.
abbrev burst : List LoginEvent
burst =
    begin (codes "w") 1
    ∷ begin (codes "w") 1
    ∷ begin (codes "w") 1
    ∷ begin (codes "w") 2
    ∷ begin (codes "w") 2
    ∷ begin (codes "w") 3
    ∷ []

burst_possible : ArePossible 10000 [] burst
unfolding ArePossible IsPossible
burst_possible = (tt, (tt, (tt, (tt, (tt, (tt, tt))))))

empty-IsBounded : IsBounded []
unfolding get
empty-IsBounded key e h = cc h

login_steps-IsBounded_example : IsBounded (login_steps 10000 [] burst)
login_steps-IsBounded_example = login_steps-IsBounded 10000 [] burst burst_possible empty-IsBounded

first_mail : (try_acquire [] (codes "a@b") 60000 1000).1 ≡ acquired
unfolding try_acquire get
first_mail = refl

same_key : key_for (codes " A@b") ≡ key_for (codes "a@b")
unfolding key_for trim to_lower_case
same_key = refl
