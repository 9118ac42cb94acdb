-- ===== src/Text/Lines/Laws.antt =====
-- The lines of what was joined by line ends.
use cicache.Prelude.{
  ℕ, ◌≡◌, refl, ap, ◌∙◌, Bool, true, false, ◌&&◌, not, List, [], ◌∷◌, ◌++◌, ◌==◌, arith,
}
use cicache.Text.Utf8.{Bytes, utf8_valid, utf8_valid-append}
use cicache.Text.Compare.{same_refl}
use cicache.Text.Set.{has}
use cicache.Text.Split.{split}
use cicache.Text.Lines.{strip_cr, lines_of_pieces, lines, join, is_blank}

-- The byte does not occur.
unfoldable pub lacks : ℕ → Bytes → Bool
lacks b [] = true
lacks b (c ∷ s) = not (c == b) && lacks b s

-- A text that can be a line of its own: it holds no line end and is not blank.
pub record IsLine (k : Bytes) : Type 0 where
  pub text : utf8_valid k ≡ true
  pub one_line : lacks 10 k ≡ true
  pub no_return : lacks 13 k ≡ true
  pub printed : is_blank k ≡ false

-- Every element of the list can.
abbrev pub AllLines : List Bytes → Type 0
AllLines ks = (k : Bytes) → has ks k ≡ true → IsLine k

head-IsLine : (k : Bytes) (ks : List Bytes) → AllLines (k ∷ ks) → IsLine k
head-IsLine k ks all = all k (unfold has in rw (same_refl k) refl)

tail-AllLines : (k : Bytes) (ks : List Bytes) → AllLines (k ∷ ks) → AllLines ks
tail-AllLines k ks all x h = all x (unfold has in ground (arith, h))

pub split-one : (sep : ℕ) (k : Bytes) → lacks sep k ≡ true → split sep k ≡ k ∷ []
unfolding split lacks
split-one sep [] h = refl
split-one sep (b ∷ k) h = ground (arith, split-one sep k (ground (arith, h)))

pub split-append :
    (sep : ℕ) (k rest : Bytes)
    → lacks sep k ≡ true
    → split sep (k ++ sep ∷ rest) ≡ k ∷ split sep rest
unfolding split lacks
split-append sep [] rest h = ground arith
split-append sep (b ∷ k) rest h = ground (arith, split-append sep k rest (ground (arith, h)))

split-join :
    (k : Bytes) (ks : List Bytes) → AllLines (k ∷ ks) → split 10 (join 10 (k ∷ ks)) ≡ k ∷ ks
unfolding join
split-join k [] all = split-one 10 k (head-IsLine k [] all).one_line
split-join k (j ∷ ks) all =
    split-append 10 k (join 10 (j ∷ ks)) (head-IsLine k (j ∷ ks) all).one_line
    ∙ ap (λ t. k ∷ t) (split-join j ks (tail-AllLines k (j ∷ ks) all))

pub strip_cr-lacks : (k : Bytes) → lacks 13 k ≡ true → strip_cr k ≡ k
unfolding strip_cr lacks
strip_cr-lacks [] h = refl
strip_cr-lacks (b ∷ []) h = ground (arith, h)
strip_cr-lacks (b ∷ (c ∷ s)) h = ap (λ t. b ∷ t) (strip_cr-lacks (c ∷ s) (ground (arith, h)))

lines_of_pieces-lines : (ks : List Bytes) → AllLines ks → lines_of_pieces ks ≡ ks
unfolding lines_of_pieces strip_cr
lines_of_pieces-lines [] all = refl
lines_of_pieces-lines ([] ∷ []) all =
    absurd (unfold is_blank in ground (arith, (head-IsLine [] [] all).printed))
lines_of_pieces-lines ((b ∷ s) ∷ []) all = refl
lines_of_pieces-lines ([] ∷ (j ∷ ks)) all =
    ap (λ t. [] ∷ t) (lines_of_pieces-lines (j ∷ ks) (tail-AllLines [] (j ∷ ks) all))
lines_of_pieces-lines ((b ∷ s) ∷ (j ∷ ks)) all =
    rw (strip_cr-lacks (b ∷ s) (head-IsLine (b ∷ s) (j ∷ ks) all).no_return)
      (ap (λ t. (b ∷ s) ∷ t) (lines_of_pieces-lines (j ∷ ks) (tail-AllLines (b ∷ s) (j ∷ ks) all)))

pub lines-join : (ks : List Bytes) → AllLines ks → lines (join 10 ks) ≡ ks
unfolding lines lines_of_pieces split join
lines-join [] all = refl
lines-join (k ∷ ks) all = rw (split-join k ks all) (lines_of_pieces-lines (k ∷ ks) all)

pub utf8_valid-join : (ks : List Bytes) → AllLines ks → utf8_valid (join 10 ks) ≡ true
unfolding join
utf8_valid-join [] all = unfold utf8_valid in refl
utf8_valid-join (k ∷ []) all = (head-IsLine k [] all).text
utf8_valid-join (k ∷ (j ∷ ks)) all =
    utf8_valid-append k (10 ∷ join 10 (j ∷ ks)) (head-IsLine k (j ∷ ks) all).text (
      utf8_valid-append (10 ∷ []) (join 10 (j ∷ ks)) (unfold utf8_valid in refl)
        (utf8_valid-join (j ∷ ks) (tail-AllLines k (j ∷ ks) all)))

pub lacks_append :
    (b : ℕ) (s t : Bytes) → lacks b s ≡ true → lacks b t ≡ true → lacks b (s ++ t) ≡ true
unfolding lacks
lacks_append b [] t h k = k
lacks_append b (c ∷ s) t h k = ground (arith, h, lacks_append b s t, k)
