-- ===== src/Stats/Render/Log.antt =====
-- The lines of the request log, read back from its bytes.
use cicache.Prelude.{
  ℕ, zero, suc, ◌-◌, ◌<◌, ◌≡◌, refl, Bool, true, false, List, [], ◌∷◌, map, ◌++◌, ◌==◌, arith,
  Bool-cases, inl, inr,
}
use cicache.Text.Utf8.{Bytes, codes}
use cicache.Text.Number.{decimal}
use cicache.Text.Number.Laws.{lacks-decimal}
use cicache.Text.Lines.{lines, concat}
use cicache.Text.Lines.Laws.{lacks, lacks_append}
use cicache.Text.Lines.Ended.{AllLack, lines-push_lines}
use cicache.Stats.{Line}
use cicache.Stats.Render.{
  FloatLib, IsPlainText, scale, with_unit, human_bytes, line_text, log_text, units, unit_name,
  spaces, stored_mark, pieces_of, chars,
}

-- What a line takes from outside holds neither byte of a line end.
pub record IsPlain (line : Line) : Type 0 where
  pub label : (b : ℕ) → b < 32 → lacks b line.label ≡ true
  pub method : (b : ℕ) → b < 32 → lacks b line.method ≡ true
  pub url : (b : ℕ) → b < 32 → lacks b line.url ≡ true

abbrev pub AllPlain : List Line → Type 0
AllPlain [] = Unit
AllPlain (line ∷ ls) = IsPlain line × AllPlain ls

lacks-concat : (b : ℕ) (pieces : List Bytes) → AllLack b pieces → lacks b (concat pieces) ≡ true
unfolding concat
lacks-concat b [] all = unfold lacks in refl
lacks-concat b (piece ∷ pieces) (now, later) =
    lacks_append b piece (concat pieces) now (lacks-concat b pieces later)

lacks-spaces : (b n : ℕ) → b < 32 → lacks b (spaces n) ≡ true
unfolding lacks
lacks-spaces b zero low = refl
lacks-spaces b (suc n) low = ground (arith, lacks-spaces b n low)

module _ (lib : FloatLib) (plain : IsPlainText lib) where
  lacks-unit_name : (b unit : ℕ) → b < 32 → lacks b (unit_name unit units) ≡ true
  unfolding lacks
  lacks-unit_name b zero low = ground arith
  lacks-unit_name b (suc zero) low = ground arith
  lacks-unit_name b (suc (suc zero)) low = ground arith
  lacks-unit_name b (suc (suc (suc zero))) low = ground arith
  lacks-unit_name b (suc (suc (suc (suc unit)))) low = refl

  lacks-with_unit : (b n : ℕ) (v : lib.Float × ℕ) → b < 32 → lacks b (with_unit lib n v) ≡ true
  lacks-with_unit b n (value, unit) low = elim (Bool-cases (unit == 0)) [
    | inl e ↦ rw e (
        lacks_append b (decimal n) (codes " B") (lacks-decimal b n (omega arith))
          (unfold lacks in ground arith))
    | inr e ↦ rw e (
        lacks_append b (lib.one_decimal value) (codes " " ++ unit_name unit units)
          (plain value b low)
          (lacks_append b (codes " ") (unit_name unit units) (unfold lacks in ground arith)
            (lacks-unit_name b unit low)))
  ]

  lacks-human_bytes : (b n : ℕ) → b < 32 → lacks b (human_bytes lib n) ≡ true
  unfolding human_bytes
  lacks-human_bytes b n low = lacks-with_unit b n (scale lib 3 (lib.of_u64 n) 0) low

  lacks-line_text :
      (b : ℕ) (line : Line) → b < 32 → IsPlain line → lacks b (line_text lib line) ≡ true
  unfolding line_text
  lacks-line_text b line low p = lacks-concat b (pieces_of lib line) (
    lacks_append b line.label (spaces (32 - chars line.label)) (p.label b low)
        (lacks-spaces b (32 - chars line.label) low),
    (
      one,
      (
        lacks_append b (spaces (10 - chars (human_bytes lib line.bytes)))
            (human_bytes lib line.bytes)
            (lacks-spaces b (10 - chars (human_bytes lib line.bytes)) low)
            (lacks-human_bytes b line.bytes low),
        (
          one,
          (
            lacks_append b (spaces (8 - chars millis)) millis
                (lacks-spaces b (8 - chars millis) low)
                (lacks_append b (decimal line.millis) (codes "ms")
                  (lacks-decimal b line.millis (omega arith)) (unfold lacks in ground arith)),
            (
              unfold lacks in ground arith,
              (p.method b low, (one, (p.url b low, (marked line.was_stored, tt)))),
            ),
          ),
        ),
      ),
    ),
  )
    where
      one : lacks b (codes " ") ≡ true
      one = unfold lacks in ground arith

      millis : Bytes
      millis = decimal line.millis ++ codes "ms"

      marked : (m : Bool) → lacks b (stored_mark lib m) ≡ true
      marked true = unfold lacks in ground arith
      marked false = unfold lacks in refl

  AllLack-texts :
      (b : ℕ) (ls : List Line) → b < 32 → AllPlain ls → AllLack b (map (line_text lib) ls)
  AllLack-texts b [] low all = tt
  AllLack-texts b (line ∷ ls) low (now, later) =
      (lacks-line_text b line low now, AllLack-texts b ls low later)

  -- The bytes of these lines, where no write fails, are read back as those lines, in order, where no
  -- method, URL or reason holds a control character.
  pub lines-log_text :
      (ls : List Line) → AllPlain ls → lines (log_text lib ls) ≡ map (line_text lib) ls
  unfolding log_text
  lines-log_text ls all =
      lines-push_lines (map (line_text lib) ls) (AllLack-texts 10 ls (omega arith) all)
        (AllLack-texts 13 ls (omega arith) all)
