-- ===== src/Stats/Render/Instance.antt =====
-- Fractions in place of `f64`.
use cicache.Prelude.{ℕ, ◌*◌, ◌/◌, ◌%◌, ◌++◌, leb, arith}
use cicache.Text.Utf8.{codes}
use cicache.Text.Number.{decimal}
use cicache.Text.Number.Laws.{lacks-decimal}
use cicache.Text.Lines.Laws.{lacks, lacks_append}
use cicache.Stats.Render.{FloatLib, FloatLaws, IsPlainText}

-- A number is a fraction; its text has the first decimal, cut off.
abbrev pub tenths : ℕ × ℕ → ℕ
tenths (a, b) = 10 * a / b

abbrev pub fraction : FloatLib
fraction = record {
  Float = ℕ × ℕ;
  of_u64 = λ n. (n, 1);
  mul = λ x y. (x.0 * y.0, x.1 * y.1);
  div = λ x y. (x.0 * y.1, x.1 * y.0);
  at_least = λ x y. leb (y.0 * x.1) (x.0 * y.1);
  one_decimal = λ x. decimal (tenths x / 10) ++ (codes "." ++ decimal (tenths x % 10));
}

pub fraction-laws : FloatLaws fraction
fraction-laws = record { ordered = λ n k h. ground arith; scaled = λ x k h le. ground arith }

pub fraction-plain : IsPlainText fraction
fraction-plain x b low =
    lacks_append b (decimal (tenths x / 10)) (codes "." ++ decimal (tenths x % 10))
      (lacks-decimal b (tenths x / 10) (omega arith))
      (lacks_append b (codes ".") (decimal (tenths x % 10)) (unfold lacks in ground arith)
        (lacks-decimal b (tenths x % 10) (omega arith)))
