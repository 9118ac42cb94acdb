-- ===== src/Text/Peel.antt =====
-- What `trim_start_matches` and `trim_end_matches` leave of a text.
use cicache.Prelude.{
  ℕ, ◌≡◌, ◌≢◌, refl, sym, ap, ◌∙◌, [], ◌∷◌, ◌++◌, ◌==◌, arith, Bool-cases, inl, inr,
}
use mathlib.Core.Path.{subst}
use mathlib.Core.List.{reverse, reverse-append, reverse-cons, reverse-reverse}
use cicache.Text.Utf8.{Bytes}
use cicache.Text.Split.{trim_start_matches, trim_end_matches}

-- Every byte of the text is the one.
abbrev pub AllAre : ℕ → Bytes → Type 0
AllAre c [] = Unit
AllAre c (b ∷ s) = (b ≡ c) × AllAre c s

AllAre-append : (c : ℕ) (s t : Bytes) → AllAre c s → AllAre c t → AllAre c (s ++ t)
AllAre-append c [] t h k = k
AllAre-append c (b ∷ s) t (e, h) k = (e, AllAre-append c s t h k)

AllAre-reverse : (c : ℕ) (s : Bytes) → AllAre c s → AllAre c (reverse s)
AllAre-reverse c [] h = tt
AllAre-reverse c (b ∷ s) (e, h) =
    subst (AllAre c) (sym (reverse-cons b s))
      (AllAre-append c (reverse s) (b ∷ []) (AllAre-reverse c s h) (e, tt))

trim_start_matches-append :
    (c : ℕ) (s t : Bytes) → AllAre c s → trim_start_matches c (s ++ t) ≡ trim_start_matches c t
unfolding trim_start_matches
trim_start_matches-append c [] t h = refl
trim_start_matches-append c (b ∷ s) t (e, h) = ground (arith, e, trim_start_matches-append c s t h)

trim_start_matches-other :
    (c : ℕ) (s : Bytes) → ((t : Bytes) → s ≢ c ∷ t) → trim_start_matches c s ≡ s
unfolding trim_start_matches
trim_start_matches-other c [] h = refl
trim_start_matches-other c (b ∷ s) h = elim (Bool-cases (b == c)) [
  | inl same ↦ absurd (h s (let e : b ≡ c = ground (arith, same) in ap (λ x. x ∷ s) e))
  | inr other ↦ rw (trim_start_matches, other) refl
]

-- The text is what is left between bytes `a` at the start and bytes `c` at the end, all of them.
abbrev pub IsPeeled : ℕ → ℕ → Bytes → Bytes → Type 0
IsPeeled a c whole s =
    (pre : Bytes) × (post : Bytes) × AllAre a pre
    × AllAre c post
    × (whole ≡ pre ++ (s ++ post))
    × ((t : Bytes) → s ≢ a ∷ t)
    × ((t : Bytes) → s ≢ t ++ c ∷ [])

start_is_other :
    (a c : ℕ) (s post : Bytes)
    → a ≢ c
    → AllAre c post
    → ((t : Bytes) → s ≢ a ∷ t)
    → (t : Bytes) → s ++ post ≢ a ∷ t
start_is_other a c [] [] apart all h t e = cc e
start_is_other a c [] (b ∷ post) apart (own, all) h t e = absurd (apart (ground (arith, own, e)))
start_is_other a c (b ∷ s) post apart all h t e =
    absurd (h s (let own : b ≡ a = ground (arith, e) in ap (λ x. x ∷ s) own))

trim_end_matches-append :
    (c : ℕ) (s post : Bytes)
    → AllAre c post
    → ((t : Bytes) → s ≢ t ++ c ∷ [])
    → trim_end_matches c (s ++ post) ≡ s
unfolding trim_end_matches
trim_end_matches-append c s post all h =
    ap (λ t. reverse (trim_start_matches c t)) (reverse-append s post)
    ∙ ap reverse
        (trim_start_matches-append c (reverse post) (reverse s) (AllAre-reverse c post all))
    ∙ ap reverse (
        trim_start_matches-other c (reverse s)
          (λ t e. h (reverse t) (sym (reverse-reverse s) ∙ (ap reverse e ∙ reverse-cons c t))))
    ∙ reverse-reverse s

pub trims-IsPeeled :
    (a c : ℕ) (whole s : Bytes)
    → a ≢ c
    → IsPeeled a c whole s
    → trim_end_matches c (trim_start_matches a whole) ≡ s
trims-IsPeeled a c whole s apart (pre, post, all, others, e, start, end) =
    ap (λ t. trim_end_matches c (trim_start_matches a t)) e
    ∙ ap (trim_end_matches c) (trim_start_matches-append a pre (s ++ post) all)
    ∙ ap (trim_end_matches c)
        (trim_start_matches-other a (s ++ post) (start_is_other a c s post apart others start))
    ∙ trim_end_matches-append c s post others end
