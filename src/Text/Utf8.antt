-- ===== src/Text/Utf8.antt =====
-- `std::str::from_utf8`: the bytes of a text, accepted exactly if they are well-formed UTF-8.
use Prim.Native.Char.{code}
use Prim.Native.String.{String}
use cicache.Prelude.{
  ◌≡◌, refl, ap, ◌∙◌, append_assoc, ◌++◌, ℕ, zero, suc, Bool, true, false, ◌&&◌, Option, none, some,
  List, [], ◌∷◌, leb, ltb, ◌==◌, if◌then◌else◌,
}

abbrev pub Bytes : Type 0
Bytes = List ℕ

-- The bytes of an ASCII literal of the source.
abbrev pub codes : String → Bytes
codes String.[] = []
codes (String.◌∷◌ c s) = code c ∷ codes s

-- What may stand next: a new character, or one of so many continuation bytes, the first of them
-- in a range.
pub data Expect : Type 0 where
  boundary : Expect
  tail : (more lo hi : ℕ) → Expect

after_tail : ℕ → Expect
after_tail zero = boundary
after_tail (suc zero) = boundary
after_tail (suc (suc n)) = tail (suc n) 0x80 0xbf

lead : ℕ → Option Expect
lead b =
    if ltb b 0x80
    then some boundary
    else if leb 0xc2 b && leb b 0xdf
    then some (tail 1 0x80 0xbf)
    else if b == 0xe0
    then some (tail 2 0xa0 0xbf)
    else if b == 0xed
    then some (tail 2 0x80 0x9f)
    else if leb 0xe1 b && leb b 0xef
    then some (tail 2 0x80 0xbf)
    else if b == 0xf0
    then some (tail 3 0x90 0xbf)
    else if leb 0xf1 b && leb b 0xf3
    then some (tail 3 0x80 0xbf)
    else if b == 0xf4
    then some (tail 3 0x80 0x8f)
    else none

next : Expect → ℕ → Option Expect
unfolding lead after_tail
next boundary b = lead b
next (tail more lo hi) b = if leb lo b && leb b hi then some (after_tail more) else none

scan : Option Expect → Bytes → Bool
scan none bs = false
scan (some boundary) [] = true
scan (some (tail more lo hi)) [] = false
scan (some e) (b ∷ bs) = scan (next e b) bs

unfoldable pub utf8_valid : Bytes → Bool
unfolding scan next
utf8_valid bs = scan (some boundary) bs

unfoldable pub from_utf8 : Bytes → Option Bytes
from_utf8 bs = if utf8_valid bs then some bs else none

abbrev replacement : Bytes
replacement = 0xef ∷ 0xbf ∷ 0xbd ∷ []

-- `String::from_utf8_lossy`: each maximal start of a character that is not completed, and each byte
-- that starts none, is replaced. `held` are the bytes of the character that has begun.
pub record Plan : Type 0 where
  pub emit : Bytes
  pub expect : Expect
  pub held : Bytes

-- What a byte does at the start of a character.
plan_lead : ℕ → Option Expect → Plan
plan_lead b (some boundary) = record { emit = b ∷ []; expect = boundary; held = [] }
plan_lead b (some (tail more lo hi)) = record { emit = []; expect = tail more lo hi; held = b ∷ [] }
plan_lead b none = record { emit = replacement; expect = boundary; held = [] }

-- What a byte does inside a character: it completes or continues it, or ends it and starts another.
plan_tail : Bytes → ℕ → Option Expect → Plan
plan_tail held b (some boundary) = record { emit = held ++ b ∷ []; expect = boundary; held = [] }
plan_tail held b (some (tail more lo hi)) = record {
  emit = [];
  expect = tail more lo hi;
  held = held ++ b ∷ [];
}
plan_tail held b none = let p = plan_lead b (lead b) in record p { emit = replacement ++ p.emit }

plan : Expect → Bytes → ℕ → Plan
plan boundary held b = plan_lead b (lead b)
plan (tail more lo hi) held b = plan_tail held b (next (tail more lo hi) b)

lossy_from : Expect → Bytes → Bytes → Bytes
lossy_from boundary held [] = []
lossy_from (tail more lo hi) held [] = replacement
lossy_from e held (b ∷ bs) = let p = plan e held b in p.emit ++ lossy_from p.expect p.held bs

unfoldable pub from_utf8_lossy : Bytes → Bytes
unfolding lossy_from plan plan_lead plan_tail lead next
from_utf8_lossy bs = lossy_from boundary [] bs

lossy_from-lead :
    (b : ℕ) (bs : Bytes) (o : Option Expect)
    → (scan (some boundary) bs ≡ true → lossy_from boundary [] bs ≡ bs)
    → ((more lo hi : ℕ) (held : Bytes)
        → scan (some (tail more lo hi)) bs ≡ true
        → lossy_from (tail more lo hi) held bs ≡ held ++ bs)
    → scan o bs ≡ true
    → (plan_lead b o).emit ++ lossy_from (plan_lead b o).expect (plan_lead b o).held bs ≡ b ∷ bs
unfolding plan_lead scan
lossy_from-lead b bs none start inside h = cc
lossy_from-lead b bs (some boundary) start inside h = ap (λ t. b ∷ t) (start h)
lossy_from-lead b bs (some (tail more lo hi)) start inside h = inside more lo hi (b ∷ []) h

lossy_from-tail :
    (held : Bytes) (b : ℕ) (bs : Bytes) (o : Option Expect)
    → (scan (some boundary) bs ≡ true → lossy_from boundary [] bs ≡ bs)
    → ((more lo hi : ℕ) (begun : Bytes)
        → scan (some (tail more lo hi)) bs ≡ true
        → lossy_from (tail more lo hi) begun bs ≡ begun ++ bs)
    → scan o bs ≡ true
    → (plan_tail held b o).emit
        ++ lossy_from (plan_tail held b o).expect (plan_tail held b o).held bs
      ≡ held ++ b ∷ bs
unfolding plan_tail scan
lossy_from-tail held b bs none start inside h = cc
lossy_from-tail held b bs (some boundary) start inside h =
    ap (λ t. (held ++ b ∷ []) ++ t) (start h) ∙ append_assoc held (b ∷ []) bs
lossy_from-tail held b bs (some (tail more lo hi)) start inside h =
    inside more lo hi (held ++ b ∷ []) h ∙ append_assoc held (b ∷ []) bs

lossy_from-valid :
    (bs : Bytes)
    → (scan (some boundary) bs ≡ true → lossy_from boundary [] bs ≡ bs)
      × ((more lo hi : ℕ) (held : Bytes)
          → scan (some (tail more lo hi)) bs ≡ true
          → lossy_from (tail more lo hi) held bs ≡ held ++ bs)
unfolding scan lossy_from plan
lossy_from-valid [] = (λ h. refl, λ more lo hi held h. cc)
lossy_from-valid (b ∷ bs) =
    let (start, inside) = lossy_from-valid bs in
    (
      λ h. lossy_from-lead b bs (lead b) start inside (unfold next in h),
      λ more lo hi held h. lossy_from-tail held b bs (next (tail more lo hi) b) start inside h,
    )

-- A text loses nothing.
pub from_utf8_lossy-valid : (bs : Bytes) → utf8_valid bs ≡ true → from_utf8_lossy bs ≡ bs
unfolding from_utf8_lossy utf8_valid
from_utf8_lossy-valid bs h = (lossy_from-valid bs).0 h

scan-append :
    (o : Option Expect) (s t : Bytes)
    → scan o s ≡ true
    → scan (some boundary) t ≡ true
    → scan o (s ++ t) ≡ true
unfolding scan
scan-append none s t h v = cc
scan-append (some boundary) [] t h v = v
scan-append (some (tail more lo hi)) [] t h v = cc
scan-append (some boundary) (b ∷ s) t h v = scan-append (next boundary b) s t h v
scan-append (some (tail more lo hi)) (b ∷ s) t h v = scan-append (next (tail more lo hi) b) s t h v

pub utf8_valid-append :
    (s t : Bytes) → utf8_valid s ≡ true → utf8_valid t ≡ true → utf8_valid (s ++ t) ≡ true
unfolding utf8_valid
utf8_valid-append s t h v = scan-append (some boundary) s t h v
