-- ===== src/Prelude/Map.antt =====
-- Go maps with string keys, as association lists.
use mathlib.Core.Path.{◌≡◌, refl, ap}
use mathlib.Core.Bool.{Bool, false}
use mathlib.Core.List.{List, [], ◌∷◌, map}
use mathlib.Core.Logic.{inl, inr}
use mathlib.Core.Option.{Option, none, some}
use native.Mathlib.Omega.{arith}
use go_bb_browser.Prelude.Tests.{if◌then◌else◌, is_some, Bool-cases}
use go_bb_browser.Prelude.Strings.{Text, str_eq, str_eq_iff}

abbrev pub Map {ℓ} : Type ℓ → Type ℓ
Map V = List (Text × V)

module _ {ℓ} {V : Type ℓ} where
  unfoldable pub get : Text → Map V → Option V
  get k [] = none
  get k ((j, v) ∷ m) = if str_eq j k then some v else get k m

  -- `m[k] = v`
  unfoldable pub insert : Text → V → Map V → Map V
  insert k v [] = (k, v) ∷ []
  insert k v ((j, w) ∷ m) = if str_eq j k then (k, v) ∷ m else (j, w) ∷ insert k v m

  -- `delete(m, k)`
  unfoldable pub delete : Text → Map V → Map V
  delete k [] = []
  delete k ((j, w) ∷ m) = if str_eq j k then delete k m else (j, w) ∷ delete k m

  abbrev pub has : Text → Map V → Bool
  has k m = is_some (get k m)

  abbrev pub keys : Map V → List Text
  keys = map λ e. e.0

  pub get-insert :
      (j k : Text) (v : V) (m : Map V)
      → get j (insert k v m) ≡ (if str_eq k j then some v else get j m)
  unfolding get insert
  get-insert j k v [] = refl
  get-insert j k v ((i, w) ∷ m) =
      ground (arith, str_eq_iff k j, str_eq_iff i k, str_eq_iff i j, get-insert j k v m)

  pub get-delete :
      (j k : Text) (m : Map V) → get j (delete k m) ≡ (if str_eq k j then none else get j m)
  unfolding get delete
  get-delete j k [] = ground arith
  get-delete j k ((i, w) ∷ m) =
      ground (arith, str_eq_iff k j, str_eq_iff i k, str_eq_iff i j, get-delete j k m)

  -- `for k := range m { if !p(k) { delete(m, k) } }`
  unfoldable pub restrict : (Text → Bool) → Map V → Map V
  restrict p [] = []
  restrict p ((j, w) ∷ m) = if p j then (j, w) ∷ restrict p m else restrict p m

  pub get-restrict :
      (j : Text) (p : Text → Bool) (m : Map V)
      → get j (restrict p m) ≡ (if p j then get j m else none)
  unfolding get restrict
  get-restrict j p [] = ground arith
  get-restrict j p ((i, w) ∷ m) = elim (Bool-cases (str_eq i j)) [
    | inl e ↦
        let same : i ≡ j = (str_eq_iff i j).0 e in
        rw same (ground (arith, get-restrict j p m, str_eq_iff j j))
    | inr e ↦ ground (arith, get-restrict j p m)
  ]

  -- The keys are distinct, as they are in a Go map.
  abbrev pub IsMap : Map V → Type 0
  IsMap [] = Unit
  IsMap ((k, v) ∷ m) = (has k m ≡ false) × IsMap m

  pub insert-IsMap : (k : Text) (v : V) (m : Map V) → IsMap m → IsMap (insert k v m)
  unfolding insert get
  insert-IsMap k v [] h = (refl, tt)
  insert-IsMap k v ((j, w) ∷ m) h = elim (Bool-cases (str_eq j k)) [
    | inl e ↦ let same = (str_eq_iff j k).0 e in rw e (ground (arith, ap (λ x. get x m) same), h.1)
    | inr e ↦
        rw e (
          ground (arith, get-insert j k v m, str_eq_iff k j, str_eq_iff j k),
          insert-IsMap k v m h.1,
        )
  ]

  pub delete-IsMap : (k : Text) (m : Map V) → IsMap m → IsMap (delete k m)
  unfolding delete get
  delete-IsMap k [] h = tt
  delete-IsMap k ((j, w) ∷ m) h = elim (Bool-cases (str_eq j k)) [
    | inl e ↦ rw e (delete-IsMap k m h.1)
    | inr e ↦ rw e (ground (arith, get-delete j k m), delete-IsMap k m h.1)
  ]

  pub restrict-IsMap : (p : Text → Bool) (m : Map V) → IsMap m → IsMap (restrict p m)
  unfolding restrict get
  restrict-IsMap p [] h = tt
  restrict-IsMap p ((j, w) ∷ m) h = elim (Bool-cases (p j)) [
    | inl e ↦ rw e (ground (arith, get-restrict j p m), restrict-IsMap p m h.1)
    | inr e ↦ rw e (restrict-IsMap p m h.1)
  ]
