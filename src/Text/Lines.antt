-- ===== src/Text/Lines.antt =====
-- `lines`, `join("\n")` and the test for a blank line.
pub mod Laws
pub mod Ended
use cicache.Prelude.{
  ℕ, Bool, true, false, ◌&&◌, ◌||◌, Option, none, some, List, [], ◌∷◌, ◌++◌, ◌==◌, leb,
  if◌then◌else◌,
}
use cicache.Text.Utf8.{Bytes}
use cicache.Text.Split.{split}

-- A line ends in "\n" or "\r\n".
unfoldable pub strip_cr : Bytes → Bytes
strip_cr [] = []
strip_cr (b ∷ []) = if b == 13 then [] else b ∷ []
strip_cr (b ∷ (c ∷ s)) = b ∷ strip_cr (c ∷ s)

-- Of the pieces between the line ends the last is a line only if it is not empty, and keeps its
-- "\r".
unfoldable pub lines_of_pieces : List Bytes → List Bytes
lines_of_pieces [] = []
lines_of_pieces ([] ∷ []) = []
lines_of_pieces ((b ∷ s) ∷ []) = (b ∷ s) ∷ []
lines_of_pieces (piece ∷ (next ∷ pieces)) = strip_cr piece ∷ lines_of_pieces (next ∷ pieces)

unfoldable pub lines : Bytes → List Bytes
lines s = lines_of_pieces (split 10 s)

unfoldable pub join : ℕ → List Bytes → Bytes
join sep [] = []
join sep (piece ∷ []) = piece
join sep (piece ∷ (next ∷ pieces)) = piece ++ (sep ∷ join sep (next ∷ pieces))

-- The pieces of a `format!`, or the parts that are pushed one after another.
unfoldable pub concat : List Bytes → Bytes
concat [] = []
concat (piece ∷ pieces) = piece ++ concat pieces

-- The lines, each with its end.
unfoldable pub push_lines : List Bytes → Bytes
push_lines [] = []
push_lines (line ∷ rest) = line ++ 10 ∷ push_lines rest

-- How much of a white space character of UTF-8 has been read.
pub data Space : Type 0 where
  whole after_c2 after_e1 after_e1_9a after_e2 after_e2_80 after_e2_81 after_e3 after_e3_80 : Space

space_next : Space → ℕ → Option Space
space_next whole b =
    if (leb 9 b && leb b 13) || b == 32
    then some whole
    else if b == 0xc2
    then some after_c2
    else if b == 0xe1
    then some after_e1
    else if b == 0xe2
    then some after_e2
    else if b == 0xe3
    then some after_e3
    else none
space_next after_c2 b = if b == 0x85 || b == 0xa0 then some whole else none
space_next after_e1 b = if b == 0x9a then some after_e1_9a else none
space_next after_e1_9a b = if b == 0x80 then some whole else none
space_next after_e2 b =
    if b == 0x80 then some after_e2_80 else if b == 0x81 then some after_e2_81 else none
space_next after_e2_80 b =
    if (leb 0x80 b && leb b 0x8a) || b == 0xa8 || b == 0xa9 || b == 0xaf then some whole else none
space_next after_e2_81 b = if b == 0x9f then some whole else none
space_next after_e3 b = if b == 0x80 then some after_e3_80 else none
space_next after_e3_80 b = if b == 0x80 then some whole else none

blank_from : Option Space → Bytes → Bool
blank_from none s = false
blank_from (some whole) [] = true
blank_from (some sp) (b ∷ s) = blank_from (space_next sp b) s
blank_from (some sp) [] = false

-- `trim().is_empty()`: nothing but white space.
unfoldable pub is_blank : Bytes → Bool
unfolding blank_from space_next
is_blank s = blank_from (some whole) s
