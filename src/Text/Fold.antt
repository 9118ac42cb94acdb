-- ===== src/Text/Fold.antt =====
-- What `to_ascii_lowercase` makes of a text, byte by byte.
use cicache.Prelude.{ℕ, ◌+◌, ◌≤◌, ◌<◌, ◌≡◌, ◌⊎◌, ◌↔◌, refl, [], ◌∷◌, arith}
use cicache.Text.Utf8.{Bytes}
use cicache.Text.Split.{lower, to_ascii_lowercase}

-- `A` to `Z` become `a` to `z`, and every other byte stays.
abbrev pub LowersTo : ℕ → ℕ → Type 0
LowersTo b c = (((b < 65) ⊎ (90 < b)) × (c ≡ b)) ⊎ ((65 ≤ b) × (b ≤ 90) × (c ≡ b + 32))

abbrev pub Folds : Bytes → Bytes → Type 0
Folds [] [] = Unit
Folds [] (c ∷ t) = ⊥
Folds (b ∷ s) [] = ⊥
Folds (b ∷ s) (c ∷ t) = LowersTo b c × Folds s t

lower_iff : (b c : ℕ) → (lower b ≡ c) ↔ LowersTo b c
lower_iff b c = ground arith

pub to_ascii_lowercase_iff : (s t : Bytes) → (to_ascii_lowercase s ≡ t) ↔ Folds s t
to_ascii_lowercase_iff [] [] = (λ e. tt, λ f. refl)
to_ascii_lowercase_iff [] (c ∷ t) = (λ e. absurd (cc e), λ f. absurd f)
to_ascii_lowercase_iff (b ∷ s) [] = (λ e. absurd (cc e), λ f. absurd f)
to_ascii_lowercase_iff (b ∷ s) (c ∷ t) =
    let (to, from) = to_ascii_lowercase_iff s t in
    let (down, up) = lower_iff b c in
    (
      λ e. (down (ground (arith, e)), to (ground (arith, e))),
      λ (low, rest). ground (arith, up low, from rest),
    )
