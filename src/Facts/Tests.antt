-- ===== src/Facts/Tests.antt =====
-- Checks of the store of facts at concrete inputs.
use investmentagent.Prelude.{ℕ, none, some, [], ◌∷◌, ◌≡◌, refl, ok, arith}
use investmentagent.Facts.{
  Fact, FactStore, append, extend, get_fact, history, series_of, add_to_series, before, insert_at,
  bisect_right,
}
use investmentagent.Facts.LookAhead.{IsStored, extend-IsStored, history-append}

abbrev close_of : ℕ → ℕ → Fact ℕ
close_of day price = record {
  entity_id = "AAPL";
  field_name = "close";
  value = price;
  observed_at = day;
  effective_at = day;
  source_id = "feed";
  source_doc_hash = none;
}

abbrev empty : FactStore ℕ
empty = record { facts = []; series = [] }

-- the second fact to come is the first that was observed
abbrev store : FactStore ℕ
store = extend ℕ empty (close_of 5 110 ∷ close_of 3 100 ∷ [])

store-IsStored : IsStored ℕ store
store-IsStored = extend-IsStored ℕ empty (close_of 5 110 ∷ close_of 3 100 ∷ []) tt

seen_before : get_fact ℕ store 4 "AAPL" "close" ≡ ok (some (close_of 3 100))
unfolding get_fact extend series_of append add_to_series before insert_at bisect_right
seen_before = refl

history-append_example :
    history ℕ (append ℕ store (close_of 9 90)) 6 "AAPL" "close" ≡ history ℕ store 6 "AAPL" "close"
history-append_example =
    history-append ℕ store (close_of 9 90) 6 "AAPL" "close" store-IsStored (omega arith)
