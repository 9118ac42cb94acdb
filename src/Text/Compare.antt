-- ===== src/Text/Compare.antt =====
-- Equality of byte strings.
use cicache.Prelude.{◌≡◌, refl, ◌↔◌, Bool, true, false, ◌&&◌, [], ◌∷◌, ◌==◌, arith}
use cicache.Text.Utf8.{Bytes}

unfoldable pub same : Bytes → Bytes → Bool
same [] [] = true
same (a ∷ as') (b ∷ bs) = (a == b) && same as' bs
same _ _ = false

pub same_iff : (s t : Bytes) → (same s t ≡ true) ↔ (s ≡ t)
unfolding same
same_iff [] [] = ground arith
same_iff [] (b ∷ bs) = ground arith
same_iff (a ∷ as') [] = ground arith
same_iff (a ∷ as') (b ∷ bs) = ground (arith, same_iff as' bs)

pub same_refl : (s : Bytes) → same s s ≡ true
same_refl s = (same_iff s s).1 refl
