-- ===== src/Text/Number/Laws.antt =====
-- The decimal text of a number determines it.
use cicache.Prelude.{
  ℕ, zero, suc, ◌+◌, ◌-◌, ◌*◌, ◌/◌, ◌%◌, ◌<◌, ◌≡◌, refl, sym, ap, ◌∙◌, true, [], ◌∷◌, arith, ltb,
  Bool-cases, inl, inr,
}
use cicache.Text.Utf8.{Bytes}
use cicache.Text.Number.{decimal, decimal_from}
use cicache.Text.Lines.Laws.{lacks}

-- The number that digits stand for.
unfoldable value : ℕ → Bytes → ℕ
value acc [] = acc
value acc (b ∷ s) = value (acc * 10 + (b - 48)) s

value-decimal_from :
    (fuel n : ℕ) (after : Bytes) → n < fuel → value 0 (decimal_from fuel n after) ≡ value n after
unfolding value decimal_from
value-decimal_from zero n after enough = absurd (omega arith)
value-decimal_from (suc fuel) n after enough = elim (Bool-cases (ltb n 10)) [
  | inl last ↦ rw last (ap (λ t. value t after) (omega arith))
  | inr more ↦ rw more (
      value-decimal_from fuel (n / 10) ((n % 10 + 48) ∷ after) (ground (arith, more))
      ∙ ap (λ t. value t after) (omega arith))
]

pub decimal_injective : (m n : ℕ) → decimal m ≡ decimal n → m ≡ n
unfolding decimal
decimal_injective m n e =
    sym (value-decimal_from (suc m) m [] (omega arith) ∙ unfold value in refl)
    ∙ ap (value 0) e
    ∙ value-decimal_from (suc n) n [] (omega arith)
    ∙ unfold value in refl

lacks-decimal_from :
    (b fuel n : ℕ) (after : Bytes)
    → b < 48
    → lacks b after ≡ true
    → lacks b (decimal_from fuel n after) ≡ true
unfolding lacks decimal_from
lacks-decimal_from b zero n after low h = h
lacks-decimal_from b (suc fuel) n after low h = elim (Bool-cases (ltb n 10)) [
  | inl last ↦ rw last (ground (arith, h))
  | inr more ↦
      rw more (lacks-decimal_from b fuel (n / 10) ((n % 10 + 48) ∷ after) low (ground (arith, h)))
]

-- The text of a number has digits only.
pub lacks-decimal : (b n : ℕ) → b < 48 → lacks b (decimal n) ≡ true
unfolding decimal
lacks-decimal b n low = lacks-decimal_from b (suc n) n [] low (unfold lacks in refl)
