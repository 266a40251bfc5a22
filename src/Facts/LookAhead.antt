-- ===== src/Facts/LookAhead.antt =====
-- The as-of view of agent/store.py never looks ahead.
use investmentagent.Prelude.{
  ℕ, suc, ◌≤◌, ◌<◌, String, ◌≡◌, refl, sym, ap, ◌∙◌, inl, inr, Option, none, some, List, [], ◌∷◌,
  map, arith, length, last?, zero, ltb, All, ok, Bool-cases,
}
use investmentagent.Facts.{
  Fact, FactStore, Series, Key, same_key, series_of, bisect_right, insert_at, take_first, before,
  insert_fact, add_to_series, append, extend, not_future, fact_in, get_fact, seen_in, history,
}

-- a fact that is later than `t` goes behind the place of `t`, and moves nothing before it
bisect-insert_at :
    (ts : List ℕ) (t x : ℕ)
    → t < x
    → bisect_right (insert_at (bisect_right ts x) x ts) t ≡ bisect_right ts t
unfolding bisect_right insert_at
bisect-insert_at [] t x h = ground (arith, h)
bisect-insert_at (y ∷ ts) t x h = elim (Bool-cases (ltb x y)) [
  | inl early ↦ rw early (ground (arith, h, early))
  | inr late ↦ rw late (ground (arith, bisect-insert_at ts t x h))
]

bisect-le : (ts : List ℕ) (t x : ℕ) → t < x → bisect_right ts t ≤ bisect_right ts x
unfolding bisect_right
bisect-le [] t x h = omega arith
bisect-le (y ∷ ts) t x h = ground (arith, h, bisect-le ts t x h)

take-insert_at {ℓ} :
    {A : Type ℓ} (i j : ℕ) (a : A) (xs : List A)
    → i ≤ j
    → j ≤ length xs
    → take_first i (insert_at j a xs) ≡ take_first i xs
unfolding take_first insert_at
take-insert_at zero j a xs h n = refl
take-insert_at (suc i) zero a xs h n = absurd (omega arith)
take-insert_at (suc i) (suc j) a [] h n = absurd (omega arith)
take-insert_at (suc i) (suc j) a (x ∷ xs) h n =
    ap (λ r. x ∷ r) (take-insert_at i j a xs (omega arith) (omega arith))

-- the fact before a place is the last of those that are taken
before-take {ℓ} :
    {A : Type ℓ} (i : ℕ) (xs : List A) → i ≤ length xs → before i xs ≡ last? (take_first i xs)
unfolding before take_first
before-take zero [] n = refl
before-take zero (x ∷ xs) n = refl
before-take (suc i) [] n = absurd (omega arith)
before-take (suc zero) (x ∷ xs) n = refl
before-take (suc (suc i)) (x ∷ []) n = absurd (omega arith)
before-take (suc (suc i)) (x ∷ y ∷ xs) n = before-take (suc i) (y ∷ xs) (omega arith)

abbrev pub Found {ℓ ℓ'} : {A : Type ℓ} → (A → Type ℓ') → Option A → Type ℓ'
Found P none = Unit
Found P (some a) = P a

-- sorted
unfoldable pub Ascending : List ℕ → Type 0
Ascending [] = Unit
Ascending (x ∷ xs) = All (λ y. x ≤ y) xs × Ascending xs

insert-All :
    (b i x : ℕ) (xs : List ℕ) → b ≤ x → All (λ y. b ≤ y) xs → All (λ y. b ≤ y) (insert_at i x xs)
unfolding insert_at
insert-All b zero x xs h all = (h, all)
insert-All b (suc i) x [] h all = (h, tt)
insert-All b (suc i) x (y ∷ xs) h (own, all) = (own, insert-All b i x xs h all)

All-lower : (a b : ℕ) (xs : List ℕ) → a ≤ b → All (λ y. b ≤ y) xs → All (λ y. a ≤ y) xs
All-lower a b [] h all = tt
All-lower a b (y ∷ xs) h (own, all) = (omega arith, All-lower a b xs h all)

insert-Ascending :
    (xs : List ℕ) (x : ℕ) → Ascending xs → Ascending (insert_at (bisect_right xs x) x xs)
unfolding insert_at bisect_right Ascending
insert-Ascending [] x h = (tt, tt)
insert-Ascending (y ∷ xs) x (least, h) = elim (Bool-cases (ltb x y)) [
  | inl early ↦
      rw early ((ground (arith, early), All-lower x y xs (ground (arith, early)) least), (least, h))
  | inr late ↦
      rw late (
        insert-All y (bisect_right xs x) x xs (ground (arith, late)) least,
        insert-Ascending xs x h,
      )
]

module _ (V : Type 0) where
  abbrev pub observed : Fact V → ℕ
  observed f = f.observed_at

  -- the times of a series are those of its facts, and are sorted
  abbrev pub IsSeries : Series V → Type 0
  IsSeries s = (s.0 ≡ map observed s.1) × Ascending s.0

  abbrev pub AllSeries : List (Key V × Series V) → Type 0
  AllSeries d = All (λ (e : Key V × Series V). IsSeries e.1) d

  map-insert_at :
      (i : ℕ) (f : Fact V) (fs : List (Fact V))
      → map observed (insert_at i f fs) ≡ insert_at i (observed f) (map observed fs)
  unfolding insert_at
  map-insert_at zero f fs = refl
  map-insert_at (suc i) f [] = refl
  map-insert_at (suc i) f (g ∷ fs) = ap (λ r. observed g ∷ r) (map-insert_at i f fs)

  insert-IsSeries : (f : Fact V) (s : Series V) → IsSeries s → IsSeries (insert_fact V f s)
  insert-IsSeries f s (h, sorted) = (
    ap (λ ts. insert_at (bisect_right s.0 (observed f)) (observed f) ts) h
        ∙ sym (map-insert_at (bisect_right s.0 (observed f)) f s.1),
    insert-Ascending s.0 (observed f) sorted,
  )

  add-AllSeries :
      (d : List (Key V × Series V)) (f : Fact V) → AllSeries d → AllSeries (add_to_series V d f)
  unfolding add_to_series Ascending
  add-AllSeries [] f h = (insert-IsSeries f ([], []) (refl, tt), tt)
  add-AllSeries ((j, s) ∷ d) f h = elim (Bool-cases (same_key V j (f.entity_id, f.field_name))) [
    | inl same ↦ rw same (insert-IsSeries f s h.0, h.1)
    | inr other ↦ rw other (h.0, add-AllSeries d f h.1)
  ]

  abbrev pub IsStored : FactStore V → Type 0
  IsStored s = AllSeries s.series

  -- Appending facts in any order keeps the store in order: the times of each series are those of its facts, and are sorted.
  pub extend-IsStored :
      (s : FactStore V) (fs : List (Fact V)) → IsStored s → IsStored (extend V s fs)
  unfolding extend append
  extend-IsStored s [] h = h
  extend-IsStored s (f ∷ fs) h = extend-IsStored (append V s f) fs (add-AllSeries s.series f h)

  bisect-length : (fs : List (Fact V)) (t : ℕ) → bisect_right (map observed fs) t ≤ length fs
  unfolding bisect_right
  bisect-length [] t = omega arith
  bisect-length (f ∷ fs) t = ground (arith, bisect-length fs t)

  seen-insert_fact :
      (t : ℕ) (f : Fact V) (s : Series V)
      → IsSeries s
      → t < f.observed_at
      → seen_in V t (some (insert_fact V f s)) ≡ seen_in V t (some s)
  seen-insert_fact t f (ts, fs) (h, sorted) later =
      ap (λ i. take_first i (insert_at (bisect_right ts (observed f)) f fs))
        (bisect-insert_at ts t (observed f) later)
      ∙ take-insert_at (bisect_right ts t) (bisect_right ts (observed f)) f fs
          (bisect-le ts t (observed f) later) (rw h (bisect-length fs (observed f)))

  seen-add :
      (t : ℕ) (f : Fact V) (d : List (Key V × Series V)) (k : Key V)
      → AllSeries d
      → t < f.observed_at
      → seen_in V t (series_of V (add_to_series V d f) k) ≡ seen_in V t (series_of V d k)
  unfolding series_of add_to_series bisect_right take_first Ascending
  seen-add t f [] k h later = elim (Bool-cases (same_key V (f.entity_id, f.field_name) k)) [
    | inl same ↦ rw same (seen-insert_fact t f ([], []) (refl, tt) later)
    | inr other ↦ rw other refl
  ]
  seen-add t f ((j, s) ∷ d) k h later =
      elim (Bool-cases (same_key V j (f.entity_id, f.field_name))) [
        | inl own ↦ elim (Bool-cases (same_key V j k)) [
          | inl same ↦ rw (own, same) (seen-insert_fact t f s h.0 later)
          | inr other ↦ rw (own, other) refl
        ]
        | inr foreign ↦ elim (Bool-cases (same_key V j k)) [
          | inl same ↦ rw (foreign, same) refl
          | inr other ↦ rw (foreign, other) (seen-add t f d k h.1 later)
        ]
      ]

  seen-IsPast :
      (t : ℕ) (fs : List (Fact V))
      → All (λ f. observed f ≤ t) (take_first (bisect_right (map observed fs) t) fs)
  unfolding bisect_right take_first
  seen-IsPast t [] = tt
  seen-IsPast t (f ∷ fs) = elim (Bool-cases (ltb t (observed f))) [
    | inl later ↦ rw later tt
    | inr seen ↦ rw seen (ground (arith, seen), seen-IsPast t fs)
  ]

  series_of-IsSeries :
      (d : List (Key V × Series V)) (k : Key V) → AllSeries d → Found IsSeries (series_of V d k)
  unfolding series_of
  series_of-IsSeries [] k h = tt
  series_of-IsSeries ((j, s) ∷ d) k (own, h) = elim (Bool-cases (same_key V j k)) [
    | inl same ↦ rw same own
    | inr other ↦ rw other (series_of-IsSeries d k h)
  ]

  not_future-past :
      (t : ℕ) (fs : List (Fact V))
      → All (λ f. observed f ≤ t) fs
      → not_future V t (last? fs) ≡ ok (last? fs)
  not_future-past t [] h = refl
  not_future-past t (f ∷ []) (own, h) = ground (arith, own)
  not_future-past t (f ∷ g ∷ fs) (own, h) = not_future-past t (g ∷ fs) h

  fact_in-seen :
      (t : ℕ) (o : Option (Series V))
      → Found IsSeries o
      → (fact_in V t o ≡ ok (last? (seen_in V t o))) × All (λ f. observed f ≤ t) (seen_in V t o)
  fact_in-seen t none h = (refl, tt)
  fact_in-seen t (some (ts, fs)) (same, sorted) = rw same (
    (ap (λ f. not_future V t f)
          (before-take (bisect_right (map observed fs) t) fs (bisect-length fs t))
        ∙ not_future-past t (take_first (bisect_right (map observed fs) t) fs) (seen-IsPast t fs)),
    seen-IsPast t fs,
  )

  -- What the view at an instant shows of a stored history does not depend on a fact that is observed later, whichever entity and field it is about and in whatever order the facts came.
  pub history-append :
      (s : FactStore V) (f : Fact V) (t : ℕ) (entity_id field_name : String)
      → IsStored s
      → t < f.observed_at
      → history V (append V s f) t entity_id field_name ≡ history V s t entity_id field_name
  unfolding history append
  history-append s f t e n h later = seen-add t f s.series (e, n) h later

  -- The view at an instant never raises on a stored history: the fact it shows is the last of what it lists, or none when it lists nothing, and each fact it lists was observed at that instant or before.
  pub get_fact-history :
      (s : FactStore V) (t : ℕ) (entity_id field_name : String)
      → IsStored s
      → (get_fact V s t entity_id field_name ≡ ok (last? (history V s t entity_id field_name)))
        × All (λ f. observed f ≤ t) (history V s t entity_id field_name)
  unfolding get_fact history
  get_fact-history s t e n h =
      fact_in-seen t (series_of V s.series (e, n)) (series_of-IsSeries s.series (e, n) h)
