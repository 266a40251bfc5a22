-- ===== src/Ledger/Orders.antt =====
-- The open orders derived in agent/ledger.py.
use investmentagent.Prelude.{
  String, ◌≡◌, refl, sym, ap, ◌∙◌, ◌↔◌, inl, inr, Bool, Option, none, some, List, [], ◌∷◌, map,
  filter, last_or, arith, eq_iff, str_eq, Member, Bool-cases, Option-cases, if◌then◌else◌,
}
use investmentagent.Prelude.Dict.{Dict, get, put, get-put}
use investmentagent.Ledger.Records.{OrderRecord}
use investmentagent.Ledger.{
  Ledger, latest_status, is_open_entry, open_order_ids, latest_order_record,
}

abbrev status_of : Option OrderRecord → Option String
status_of none = none
status_of (some r) = some (r.status)

abbrev about : String → OrderRecord → Bool
about id r = str_eq r.client_order_id id

get-latest_status :
    (d : Dict String) (o : Option OrderRecord) (rs : List OrderRecord) (id : String)
    → get d id ≡ status_of o
    → get (latest_status d rs) id ≡ status_of (last_or (about id) o rs)
unfolding latest_status
get-latest_status d o [] id h = h
get-latest_status d o (r ∷ rs) id h =
    get-latest_status (put d r.client_order_id r.status) (if about id r then some r else o) rs id
      (ground (arith, h, get-put d r.client_order_id id r.status))

-- no key stands twice
abbrev Distinct : Dict String → Type 0
Distinct [] = Unit
Distinct ((k, _) ∷ d) = (get d k ≡ none) × Distinct d

put-Distinct : (d : Dict String) (k v : String) → Distinct d → Distinct (put d k v)
unfolding put get
put-Distinct [] k v h = (refl, tt)
put-Distinct ((j, w) ∷ d) k v h = elim (Bool-cases (str_eq j k)) [
  | inl same ↦ rw same h
  | inr other ↦
      rw other (
        ground (arith, other, h.0, get-put d k j v, eq_iff k j, eq_iff j k),
        put-Distinct d k v h.1,
      )
]

latest_status-Distinct :
    (d : Dict String) (rs : List OrderRecord) → Distinct d → Distinct (latest_status d rs)
unfolding latest_status
latest_status-Distinct d [] h = h
latest_status-Distinct d (r ∷ rs) h =
    latest_status-Distinct (put d r.client_order_id r.status) rs
      (put-Distinct d r.client_order_id r.status h)

abbrev open_keys : Dict String → List String
open_keys d = map (λ (e : String × String). e.0) (filter is_open_entry d)

open_keys_iff :
    (d : Dict String) (id : String)
    → Distinct d
    → Member id (open_keys d) ↔ (get d id ≡ some "OPEN")
unfolding get
open_keys_iff [] id h = (λ m. absurd m, λ e. absurd (ground (arith, e)))
open_keys_iff ((k, v) ∷ d) id h = elim (Bool-cases (str_eq v "OPEN")) [
  | inl live ↦ rw live (
    λ m. elim m [
      | inl same ↦ ground (arith, same, live, eq_iff k id, eq_iff v "OPEN")
      | inr later ↦ ground (arith, h.0, (open_keys_iff d id h.1).0 later, eq_iff k id)
    ],
    λ e. elim (Bool-cases (str_eq k id)) [
      | inl same ↦ inl (sym ((eq_iff k id).0 same))
      | inr other ↦ inr ((open_keys_iff d id h.1).1 (ground (arith, e, other)))
    ],
  )
  | inr shut ↦ rw shut (
    λ m. ground (arith, h.0, (open_keys_iff d id h.1).0 m, eq_iff k id),
    λ e. (open_keys_iff d id h.1).1 (ground (arith, e, shut, eq_iff v "OPEN")),
  )
]

-- The ids of the open orders are those whose last record has the status OPEN.
pub open_order_ids_iff :
    (l : Ledger) (id : String)
    → Member id (open_order_ids l)
      ↔ ((r : OrderRecord) × (latest_order_record l id ≡ some r) × (r.status ≡ "OPEN"))
unfolding open_order_ids latest_order_record get
open_order_ids_iff l id = (
  λ m. elim (Option-cases (latest_order_record l id)) [
    | inl missing ↦ absurd (ground (arith, missing, status, keys.0 m))
    | inr (r, found) ↦ (r, found, ground (arith, found, status, keys.0 m))
  ],
  λ (r, found, live). keys.1 (status ∙ ap status_of found ∙ ap some live),
)
  where
    keys :
        Member id (open_keys (latest_status [] l.order_records))
        ↔ (get (latest_status [] l.order_records) id ≡ some "OPEN")
    keys =
        open_keys_iff (latest_status [] l.order_records) id
          (latest_status-Distinct [] l.order_records tt)

    status :
        get (latest_status [] l.order_records) id
        ≡ status_of (last_or (about id) none l.order_records)
    status = get-latest_status [] none l.order_records id refl
