-- ===== src/Journal/Tests.antt =====
-- Replays of small files whose documents are texts behind a bracket and whose rows are those that go
-- on with an "r".
use Prim.Native.Char.{code}
use Prim.Native.String.{String}
use investmentagent.Prelude.{
  ◌≡◌, refl, Option, none, some, [], ◌∷◌, ◌++◌, map, ok, err, false, ◌==◌, if◌then◌else◌,
}
use investmentagent.Journal.{
  is_blank, replay, replay_lines, replay-torn, malformed_row, undecodable_row,
}

abbrev document : String → String
document s = String.◌∷◌ "r" s

abbrev encode : String → String
encode s = String.◌∷◌ "{" (document s)

abbrev parse : String → Option String
parse (String.◌∷◌ c s) = if code c == 123 then some s else none
parse String.[] = none

abbrev decode : String → Option String
decode (String.◌∷◌ c s) = if code c == 114 then some s else none
decode String.[] = none

parse-encode : (s : String) → parse (encode s) ≡ some (document s)
parse-encode s = refl

decode-document : (s : String) → decode (document s) ≡ some s
decode-document s = refl

encode-is_blank : (s : String) → is_blank (encode s) ≡ false
unfolding is_blank
encode-is_blank s = refl

torn_is_there : is_blank "torn" ≡ false
unfolding is_blank
torn_is_there = refl

blank_lines :
    replay parse decode ("{ra" ∷ " \t" ∷ "" ∷ "{rb" ∷ "  " ∷ []) ≡ ok ("a" ∷ "b" ∷ [], none)
unfolding replay replay_lines is_blank
blank_lines = refl

foreign_row : replay parse decode ("{ra" ∷ "{x" ∷ []) ≡ err undecodable_row
unfolding replay replay_lines is_blank
foreign_row = refl

torn_inside : replay parse decode ("{ra" ∷ "torn" ∷ "{x" ∷ []) ≡ err malformed_row
unfolding replay replay_lines is_blank
torn_inside = refl

replay-torn_example :
    replay parse decode (map encode ("a" ∷ "b" ∷ []) ++ "torn" ∷ [])
    ≡ ok ("a" ∷ "b" ∷ [], some "torn")
replay-torn_example =
    replay-torn parse decode encode document parse-encode decode-document encode-is_blank
      ("a" ∷ "b" ∷ []) "torn" torn_is_there
