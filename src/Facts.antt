-- ===== src/Facts.antt =====
-- agent/store.py: the append-only store of facts and its as-of view. `V` is the type of the values.
-- The times of a series are the `observed_at` of its facts, kept in a list of their own as in the
-- source. An instant is a count.
pub mod LookAhead
mod Tests
use investmentagent.Prelude.{
  ℕ, zero, suc, ◌-◌, String, Bool, ◌&&◌, Option, none, some, List, [], ◌∷◌, ◌++◌, map, filter,
  str_eq, ltb, leb, if◌then◌else◌, Result, ok, err,
}

pub data StoreError : Type 0 where
  -- `as_of` returned a future fact
  invariant_violated : StoreError

module _ (V : Type 0) where
  pub record Fact : Type 0 where
    pub entity_id : String
    pub field_name : String
    pub value : V
    pub observed_at : ℕ
    pub effective_at : ℕ
    pub source_id : String
    pub source_doc_hash : Option String

  -- the times and the facts of one entity and field
  abbrev pub Series : Type 0
  Series = List ℕ × List Fact

  abbrev pub Key : Type 0
  Key = String × String

  abbrev pub same_key : Key → Key → Bool
  same_key (e, f) (e', f') = str_eq e e' && str_eq f f'

  pub record FactStore : Type 0 where
    pub facts : List Fact
    pub series : List (Key × Series)

  -- `self._series.get(key)`
  unfoldable pub series_of : List (Key × Series) → Key → Option Series
  series_of [] k = none
  series_of ((j, s) ∷ rest) k = if same_key j k then some s else series_of rest k

-- `bisect_right` of a sorted list: the place behind the last element that is at most `x`
unfoldable pub bisect_right : List ℕ → ℕ → ℕ
bisect_right [] x = 0
bisect_right (y ∷ ys) x = let rest = bisect_right ys x in if ltb x y then 0 else suc rest

-- `xs.insert(i, x)` and `xs[:i]`
unfoldable pub insert_at {ℓ} : {A : Type ℓ} → ℕ → A → List A → List A
insert_at zero x xs = x ∷ xs
insert_at (suc i) x [] = x ∷ []
insert_at (suc i) x (y ∷ ys) = y ∷ insert_at i x ys

unfoldable pub take_first {ℓ} : {A : Type ℓ} → ℕ → List A → List A
take_first zero xs = []
take_first (suc i) [] = []
take_first (suc i) (x ∷ xs) = x ∷ take_first i xs

-- `xs[i - 1]` for a positive `i`
unfoldable pub before {ℓ} : {A : Type ℓ} → ℕ → List A → Option A
before i [] = none
before zero (x ∷ xs) = none
before (suc zero) (x ∷ xs) = some x
before (suc (suc i)) (x ∷ xs) = before (suc i) xs

module _ (V : Type 0) where
  abbrev pub insert_fact : Fact V → Series V → Series V
  insert_fact f (times, facts) =
      let i = bisect_right times f.observed_at in
      (insert_at i f.observed_at times, insert_at i f facts)

  -- `setdefault`, and the two insertions in place
  unfoldable pub add_to_series : List (Key V × Series V) → Fact V → List (Key V × Series V)
  add_to_series [] f = ((f.entity_id, f.field_name), insert_fact f ([], [])) ∷ []
  add_to_series ((j, s) ∷ rest) f =
      if same_key V j (f.entity_id, f.field_name)
      then (j, insert_fact f s) ∷ rest
      else (j, s) ∷ add_to_series rest f

  -- `FactStore.append`, in memory
  unfoldable pub append : FactStore V → Fact V → FactStore V
  append s f = record s { facts = s.facts ++ f ∷ []; series = add_to_series s.series f }

  -- `FactStore.extend`
  unfoldable pub extend : FactStore V → List (Fact V) → FactStore V
  extend s [] = s
  extend s (f ∷ fs) = extend (append s f) fs

  abbrev pub not_future : ℕ → Option (Fact V) → Result StoreError (Option (Fact V))
  not_future t none = ok none
  not_future t (some f) = if ltb t f.observed_at then err invariant_violated else ok (some f)

  abbrev pub fact_in : ℕ → Option (Series V) → Result StoreError (Option (Fact V))
  fact_in t none = ok none
  fact_in t (some (times, facts)) = not_future t (before (bisect_right times t) facts)

  -- `AsOfView.get_fact` of the view at `t`
  unfoldable pub get_fact : FactStore V → ℕ → String → String → Result StoreError (Option (Fact V))
  get_fact s t entity_id field_name = fact_in t (series_of V s.series (entity_id, field_name))

  abbrev pub seen_in : ℕ → Option (Series V) → List (Fact V)
  seen_in t none = []
  seen_in t (some (times, facts)) = take_first (bisect_right times t) facts

  -- `AsOfView.history`
  unfoldable pub history : FactStore V → ℕ → String → String → List (Fact V)
  history s t entity_id field_name = seen_in t (series_of V s.series (entity_id, field_name))
