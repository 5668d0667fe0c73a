-- ===== src/Prelude/Dict.antt =====
-- JavaScript's `Map` from texts to values, as an association list in insertion order: `set` on a
-- key that is there keeps its place, and on a new key appends it.
use Prim.Native.Nat.{suc, ◌+◌, ◌≤◌}
use mathlib.Core.Path.{◌≡◌, refl}
use mathlib.Core.Bool.{Bool, true}
use mathlib.Core.List.{List, [], ◌∷◌}
use mathlib.Core.Option.{Option, none, some}
use native.Mathlib.Omega.{arith}
use split_naira.Prelude.Tests.{if◌then◌else◌, is_some}
use split_naira.Prelude.Lists.{length}
use split_naira.Prelude.Strings.{Text, text_eq, text_eq_iff, text_eq_refl}

abbrev pub Dict {ℓ} : Type ℓ → Type ℓ
Dict V = List (Text × V)

module _ {ℓ} {V : Type ℓ} where
  unfoldable pub get : Text → Dict V → Option V
  get k [] = none
  get k ((j, v) ∷ m) = let rest = get k m in if text_eq j k then some v else rest

  unfoldable pub set : Text → V → Dict V → Dict V
  set k v [] = (k, v) ∷ []
  set k v ((j, w) ∷ m) = let rest = set k v m in if text_eq j k then (j, v) ∷ m else (j, w) ∷ rest

  unfoldable pub delete : Text → Dict V → Dict V
  delete k [] = []
  delete k ((j, v) ∷ m) = let rest = delete k m in if text_eq j k then rest else (j, v) ∷ rest

  abbrev pub has : Text → Dict V → Bool
  has k m = is_some (get k m)

  abbrev pub values : Dict V → List V
  values [] = []
  values ((k, v) ∷ m) = v ∷ values m

  pub get-set :
      (k j : Text) (v : V) (m : Dict V)
      → get j (set k v m) ≡ (if text_eq k j then some v else get j m)
  unfolding get set
  get-set k j v [] = refl
  get-set k j v ((i, w) ∷ m) =
      ground (arith, text_eq_iff k j, text_eq_iff i k, text_eq_iff i j, get-set k j v m)

  pub get-set_self : (k : Text) (v : V) (m : Dict V) → get k (set k v m) ≡ some v
  get-set_self k v m = simp (get-set, text_eq_refl)

  pub get-delete :
      (k j : Text) (m : Dict V) → get j (delete k m) ≡ (if text_eq k j then none else get j m)
  unfolding get delete
  get-delete k j [] = ground (arith, text_eq_iff k j)
  get-delete k j ((i, w) ∷ m) =
      ground (arith, text_eq_iff k j, text_eq_iff i k, text_eq_iff i j, get-delete k j m)

  pub get-delete_self : (k : Text) (m : Dict V) → get k (delete k m) ≡ none
  get-delete_self k m = simp (get-delete, text_eq_refl)

  pub length-set-le : (k : Text) (v : V) (m : Dict V) → length (set k v m) ≤ length m + 1
  unfolding set
  length-set-le k v [] = omega arith
  length-set-le k v ((j, w) ∷ m) = ground (arith, length-set-le k v m)

  pub length-set_present :
      (k : Text) (v : V) (m : Dict V) → has k m ≡ true → length (set k v m) ≡ length m
  unfolding set get
  length-set_present k v [] h = cc
  length-set_present k v ((j, w) ∷ m) h = ground (arith, length-set_present k v m)

  pub length-set_absent :
      (k : Text) (v : V) (m : Dict V) → get k m ≡ none → length (set k v m) ≡ length m + 1
  unfolding set get
  length-set_absent k v [] h = omega arith
  length-set_absent k v ((j, w) ∷ m) h = ground (arith, length-set_absent k v m)

  pub length-delete-le : (k : Text) (m : Dict V) → length (delete k m) ≤ length m
  unfolding delete
  length-delete-le k [] = omega arith
  length-delete-le k ((j, w) ∷ m) = ground (arith, length-delete-le k m)

  -- A deletion of a key that is there makes the map smaller.
  pub length-delete-lt :
      (k : Text) (m : Dict V) → has k m ≡ true → suc (length (delete k m)) ≤ length m
  unfolding delete get
  length-delete-lt k [] h = cc
  length-delete-lt k ((j, w) ∷ m) h = ground (arith, length-delete-lt k m, length-delete-le k m)
