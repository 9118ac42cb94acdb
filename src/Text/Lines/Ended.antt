-- ===== src/Text/Lines/Ended.antt =====
-- Texts all of whose lines are ended.
use cicache.Prelude.{ℕ, ◌≡◌, refl, sym, ap, ◌∙◌, true, List, [], ◌∷◌, ◌++◌, append_assoc}
use cicache.Text.Utf8.{Bytes}
use cicache.Text.Split.{split}
use cicache.Text.Lines.{join, lines, lines_of_pieces, push_lines}
use cicache.Text.Lines.Laws.{split-one, lacks, split-append, strip_cr-lacks}

-- Every piece lacks the byte.
abbrev pub AllLack : ℕ → List Bytes → Type 0
AllLack b [] = Unit
AllLack b (piece ∷ pieces) = (lacks b piece ≡ true) × AllLack b pieces

split-push_lines :
    (pieces : List Bytes) → AllLack 10 pieces → split 10 (push_lines pieces) ≡ pieces ++ [] ∷ []
unfolding push_lines split
split-push_lines [] all = refl
split-push_lines (piece ∷ pieces) (now, later) =
    split-append 10 piece (push_lines pieces) now
    ∙ ap (λ t. piece ∷ t) (split-push_lines pieces later)

lines_of_pieces_ended :
    (pieces : List Bytes) → AllLack 13 pieces → lines_of_pieces (pieces ++ [] ∷ []) ≡ pieces
unfolding lines_of_pieces
lines_of_pieces_ended [] all = refl
lines_of_pieces_ended (piece ∷ []) (now, later) = ap (λ t. t ∷ []) (strip_cr-lacks piece now)
lines_of_pieces_ended (piece ∷ (next ∷ pieces)) (now, later) =
    rw (strip_cr-lacks piece now)
      (ap (λ t. piece ∷ t) (lines_of_pieces_ended (next ∷ pieces) later))

pub lines-push_lines :
    (pieces : List Bytes)
    → AllLack 10 pieces
    → AllLack 13 pieces
    → lines (push_lines pieces) ≡ pieces
unfolding lines
lines-push_lines pieces ends returns =
    ap lines_of_pieces (split-push_lines pieces ends) ∙ lines_of_pieces_ended pieces returns

pub push_lines-append :
    (pieces : List Bytes) (last : Bytes)
    → push_lines (pieces ++ last ∷ []) ≡ push_lines pieces ++ (last ++ 10 ∷ [])
unfolding push_lines
push_lines-append [] last = refl
push_lines-append (piece ∷ pieces) last =
    ap (λ t. piece ++ 10 ∷ t) (push_lines-append pieces last)
    ∙ sym (append_assoc piece (10 ∷ push_lines pieces) (last ++ 10 ∷ []))

pub AllLack-append :
    (b : ℕ) (pieces : List Bytes) (last : Bytes)
    → AllLack b pieces
    → lacks b last ≡ true
    → AllLack b (pieces ++ last ∷ [])
AllLack-append b [] last all h = (h, tt)
AllLack-append b (piece ∷ pieces) last (now, later) h = (now, AllLack-append b pieces last later h)

split-pieces :
    (sep : ℕ) (piece : Bytes) (pieces : List Bytes)
    → AllLack sep (piece ∷ pieces)
    → split sep (join sep (piece ∷ pieces)) ≡ piece ∷ pieces
unfolding join
split-pieces sep piece [] (now, later) = split-one sep piece now
split-pieces sep piece (next ∷ pieces) (now, later) =
    split-append sep piece (join sep (next ∷ pieces)) now
    ∙ ap (λ t. piece ∷ t) (split-pieces sep next pieces later)

-- Pieces without the separator are determined by what they join to, where there is a piece.
pub join_injective :
    (sep : ℕ) (j k : Bytes) (js ks : List Bytes)
    → AllLack sep (j ∷ js)
    → AllLack sep (k ∷ ks)
    → join sep (j ∷ js) ≡ join sep (k ∷ ks)
    → j ∷ js ≡ k ∷ ks
join_injective sep j k js ks all_js all_ks e =
    sym (split-pieces sep j js all_js) ∙ ap (split sep) e ∙ split-pieces sep k ks all_ks
