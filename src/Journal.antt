-- ===== src/Journal.antt =====
-- The replay of an append-only file of rows, as agent/audit.py, agent/store.py and agent/mode_store.py
-- do it on the lines of the file. `parse` stands for `json.loads`, `none` where it raises
-- `JSONDecodeError`, and `decode` for the row's own decoder, `none` where it raises. agent/mode_store.py
-- decodes inside the `try` as well and catches the decoder's `KeyError` and `ValueError`: there `parse`
-- is `json.loads` with the decoder, `none` where one of the three is raised.
mod Tests
use investmentagent.Prelude.{
  String, Bool, true, false, not, ◌≡◌, refl, sym, ap, ◌∙◌, Option, none, some, Option-cases, inl,
  inr, List, [], ◌∷◌, ◌++◌, map, filter, all, leb, ◌==◌, ◌&&◌, ◌||◌, arith, Result, ok, err, ◌>>=◌,
}
use Prim.Native.Char.{Char, code}

pub data JournalError : Type 0 where
  -- a row that does not parse and is not the last one
  malformed_row : JournalError
  -- a row that parses and does not decode: the decoder's exception, passed on
  undecodable_row : JournalError

-- `str.isspace` of one character, by its code
is_space : Char → Bool
is_space c =
    let n = code c in
    (leb 9 n && leb n 13)
    || (leb 28 n && leb n 32)
    || n == 133
    || n == 160
    || n == 5760
    || (leb 8192 n && leb n 8202)
    || (leb 8232 n && leb n 8233)
    || n == 8239
    || n == 8287
    || n == 12288

-- `not line.strip()`
unfoldable pub is_blank : String → Bool
unfolding is_space
is_blank String.[] = true
is_blank (String.◌∷◌ c s) = is_space c && is_blank s

module _ {J R : Type 0} (parse : String → Option J) (decode : J → Option R) where
  abbrev prepend : R → List R × Option String → List R × Option String
  prepend r (rs, torn) = (r ∷ rs, torn)

  abbrev decoded : J → Result JournalError R
  decoded j = elim (decode j) [ none ↦ err undecodable_row | some r ↦ ok r ]

  -- The rows, and the last line if it alone does not parse (`truncated_tail_on_load`).
  unfoldable pub replay_lines : List String → Result JournalError (List R × Option String)
  replay_lines [] = ok ([], none)
  replay_lines (line ∷ []) = elim (parse line) [
    | none ↦ ok ([], some line)
    | some j ↦ (decoded j >>= λ r. ok (r ∷ [], none))
  ]
  replay_lines (line ∷ next ∷ lines) =
      let rest = replay_lines (next ∷ lines) in
      elim (parse line) [
        | none ↦ err malformed_row
        | some j ↦ (decoded j >>= λ r. rest >>= λ l. ok (prepend r l))
      ]

  -- the lines that are not blank, replayed
  unfoldable pub replay : List String → Result JournalError (List R × Option String)
  replay lines = replay_lines (filter (λ l. not (is_blank l)) lines)

  -- what the last line gives: a row, a torn row that is kept for the operator, or an exception
  abbrev pub ending : List R → String → Result JournalError (List R × Option String)
  ending rs line = elim (parse line) [
    | none ↦ ok (rs, some line)
    | some j ↦ elim (decode j) [ none ↦ err undecodable_row | some r ↦ ok (rs ++ r ∷ [], none) ]
  ]

  prepend-ending :
      (r : R) (rs : List R) (line : String)
      → (ending rs line >>= λ l. ok (prepend r l)) ≡ ending (r ∷ rs) line
  prepend-ending r rs line = elim (Option-cases (parse line)) [
    | inl torn ↦ rw (ending, torn) refl
    | inr (j, parsed) ↦ elim (Option-cases (decode j)) [
      | inl foreign ↦ rw (ending, parsed) (rw foreign refl)
      | inr (s, read) ↦ rw (ending, parsed) (rw read refl)
    ]
  ]

  module _ (encode : R → String) (document : R → J)
      (parse-encode : (r : R) → parse (encode r) ≡ some (document r))
      (decode-document : (r : R) → decode (document r) ≡ some r)
      (encode-is_blank : (r : R) → is_blank (encode r) ≡ false) where
    kept :
        (rs : List R) (lines : List String)
        → filter (λ l. not (is_blank l)) (map encode rs ++ lines)
          ≡ map encode rs ++ filter (λ l. not (is_blank l)) lines
    kept [] lines = refl
    kept (r ∷ rs) lines = rw (encode-is_blank r) (ap (λ ls. encode r ∷ ls) (kept rs lines))

    read_back : (r : R) → decoded (document r) ≡ ok r
    read_back r = rw (decoded, decode-document r) refl

    lines-ending :
        (rs : List R) (line : String) → replay_lines (map encode rs ++ line ∷ []) ≡ ending rs line
    unfolding replay_lines
    lines-ending [] line = elim (Option-cases (parse line)) [
      | inl torn ↦ rw (ending, torn) refl
      | inr (j, parsed) ↦ elim (Option-cases (decode j)) [
        | inl foreign ↦ rw (ending, parsed) (rw (decoded, foreign) refl)
        | inr (s, read) ↦ rw (ending, parsed) (rw (decoded, read) refl)
      ]
    ]
    lines-ending (r ∷ []) line = rw (parse-encode r) (
        rw (read_back r)
          (ap (λ l. l >>= λ m. ok (prepend r m)) (lines-ending [] line) ∙ prepend-ending r [] line))
    lines-ending (r ∷ s ∷ rs) line = rw (parse-encode r) (
        rw (read_back r) (
          ap (λ l. l >>= λ m. ok (prepend r m)) (lines-ending (s ∷ rs) line)
          ∙ prepend-ending r (s ∷ rs) line))

    -- The rows that were written before the last line are loaded in order, whatever the last line is:
    -- if it does not parse, since its write was cut off, it is kept for the operator and nothing else is
    -- lost; if it parses and does not decode, the load is refused; otherwise it is the last row. A line
    -- that is written by `encode` parses, decodes and is not blank, and the last line is not blank.
    pub replay-torn :
        (rs : List R) (line : String)
        → is_blank line ≡ false
        → replay (map encode rs ++ line ∷ []) ≡ ending rs line
    unfolding replay
    replay-torn rs line h = ap replay_lines (kept rs (line ∷ []) ∙ rw h refl) ∙ lines-ending rs line

    -- A line that does not parse and is followed by another is never skipped: the load is refused.
    replay-malformed :
        (rs : List R) (line next : String) (later : List String)
        → parse line ≡ none
        → replay_lines (map encode rs ++ line ∷ next ∷ later) ≡ err malformed_row
    unfolding replay_lines
    replay-malformed [] line next later h = rw h
    replay-malformed (r ∷ []) line next later h = rw (parse-encode r, read_back r, h)
    replay-malformed (r ∷ s ∷ rs) line next later h =
        rw (parse-encode r, read_back r, replay-malformed (s ∷ rs) line next later h)
