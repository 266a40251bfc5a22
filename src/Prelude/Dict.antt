-- ===== src/Prelude/Dict.antt =====
-- Python's `dict` with text keys, as a list of pairs in insertion order: assigning to a key that
-- is there keeps its place.
use Prim.Native.String.{String}
use mathlib.Core.Path.{◌≡◌, refl}
use mathlib.Core.Bool.{Bool}
use mathlib.Core.Option.{Option, none, some}
use mathlib.Core.List.{List, [], ◌∷◌}
use native.Mathlib.Omega.{arith}
use text.Mathlib.Text.{◌==◌}
use text.Mathlib.TextEquality.{eq_iff}
use text.Mathlib.TextPositions.{eq_refl}
use mathlib.Core.Logic.{inl, inr}
use investmentagent.Prelude.Tests.{if◌then◌else◌, is_some, Bool-cases}

abbrev pub Dict {ℓ} : Type ℓ → Type ℓ
Dict V = List (String × V)

module _ {ℓ} {V : Type ℓ} where
  -- `d.get(k)`
  unfoldable pub get : Dict V → String → Option V
  get [] k = none
  get ((j, v) ∷ d) k = if j == k then some v else get d k

  -- `d.get(k, v)`
  abbrev pub get_or : Dict V → String → V → V
  get_or d k v = elim (get d k) [ none ↦ v | some w ↦ w ]

  -- `k in d`
  abbrev pub contains : Dict V → String → Bool
  contains d k = is_some (get d k)

  -- `d[k] = v`
  unfoldable pub put : Dict V → String → V → Dict V
  put [] k v = (k, v) ∷ []
  put ((j, w) ∷ d) k v = if j == k then (j, v) ∷ d else (j, w) ∷ put d k v

  pub get-put :
      (table : Dict V) (key other : String) (value : V)
      → get (put table key value) other ≡ (if key == other then some value else get table other)
  unfolding put get
  get-put [] key other value = refl
  get-put ((i, w) ∷ table) key other value =
      ground (arith, eq_iff key other, eq_iff i key, eq_iff i other, get-put table key other value)

  pub get-put_self : (d : Dict V) (k : String) (v : V) → get (put d k v) k ≡ some v
  get-put_self d k v = simp (get-put, eq_refl)

  -- `d.setdefault(k, v)` as a statement
  abbrev pub setdefault : Dict V → String → V → Dict V
  setdefault d k v = if contains d k then d else put d k v

  -- a new key leaves the others as they are
  pub get-put_other :
      (d : Dict V) (k j : String) (v : V) {known : V}
      → get d k ≡ none
      → get d j ≡ some known
      → get (put d k v) j ≡ some known
  get-put_other d k j v new there = elim (Bool-cases (k == j)) [
    | inl same ↦
        let e = (eq_iff k j).0 same in
        absurd (let gone : get d j ≡ none = rw (← e) new in ground (arith, there, gone))
    | inr other ↦ rw (get-put d k j v, other) there
  ]

module _ {ℓ κ} {V : Type ℓ} where
  -- every entry of the table
  abbrev pub Each : (String → V → Type κ) → Dict V → Type κ
  Each P [] = Unit
  Each P ((k, v) ∷ d) = P k v × Each P d

  pub Each-put :
      (P : String → V → Type κ) (d : Dict V) (k : String) (v : V)
      → Each P d
      → P k v
      → Each P (put d k v)
  unfolding put
  Each-put P [] k v h new = (new, tt)
  Each-put P ((j, w) ∷ d) k v (own, h) new = elim (Bool-cases (j == k)) [
    | inl same ↦ rw same (rw ((eq_iff j k).0 same) new, h)
    | inr other ↦ rw other (own, Each-put P d k v h new)
  ]

  pub Each-get :
      (P : String → V → Type κ) (d : Dict V) (k : String) {v : V}
      → Each P d
      → get d k ≡ some v
      → P k v
  unfolding get
  Each-get P [] k h found = cc
  Each-get P ((j, w) ∷ d) k {v} (own, h) found = elim (Bool-cases (j == k)) [
    | inl same ↦
        let e : w ≡ v = ground (arith, same, found) in rw (← e) (rw (← (eq_iff j k).0 same) own)
    | inr other ↦ Each-get P d k h (ground (arith, other, found))
  ]

  pub Each-map :
      {P Q : String → V → Type κ} (d : Dict V)
      → ((k : String) (v : V) → P k v → Q k v)
      → Each P d
      → Each Q d
  Each-map [] f h = tt
  Each-map ((k, v) ∷ d) f (own, h) = (f k v own, Each-map d f h)
