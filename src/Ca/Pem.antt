-- ===== src/Ca/Pem.antt =====
-- The lines of a certificate's PEM block.
use cicache.Prelude.{
  ℕ, zero, suc, ◌≤◌, ◌≡◌, refl, sym, ap, ◌∙◌, true, List, [], ◌∷◌, ◌++◌, length, take, drop, arith,
  length-take, length-drop, take-append-drop,
}
use cicache.Text.Utf8.{Bytes, codes}
use cicache.Text.Lines.{concat, lines, push_lines}
use cicache.Text.Lines.Laws.{lacks}
use cicache.Text.Lines.Ended.{AllLack, lines-push_lines, push_lines-append, AllLack-append}
use cicache.Ca.{CertLib, chunks_from, chunks, pem_encode}

-- Each piece has between one and `size` bytes.
pub data AllWithin (size : ℕ) : List Bytes → Type 0 where
  none_left : AllWithin size []
  one_more :
      {piece : Bytes} {pieces : List Bytes}
      → 1 ≤ length piece
      → length piece ≤ size
      → AllWithin size pieces
      → AllWithin size (piece ∷ pieces)

concat-chunks_from :
    (fuel n : ℕ) (bs : Bytes) → length bs ≤ fuel → concat (chunks_from fuel (suc n) bs) ≡ bs
unfolding concat chunks_from
concat-chunks_from zero n [] h = refl
concat-chunks_from zero n (b ∷ bs) h = absurd (omega arith)
concat-chunks_from (suc fuel) n [] h = refl
concat-chunks_from (suc fuel) n (b ∷ bs) h =
    ap (λ t. take (suc n) (b ∷ bs) ++ t)
      (concat-chunks_from fuel n (drop (suc n) (b ∷ bs))
        (omega (arith, length-drop (suc n) (b ∷ bs))))
    ∙ take-append-drop (suc n) (b ∷ bs)

chunks_from-AllWithin : (fuel n : ℕ) (bs : Bytes) → AllWithin (suc n) (chunks_from fuel (suc n) bs)
unfolding chunks_from
chunks_from-AllWithin zero n bs = none_left
chunks_from-AllWithin (suc fuel) n [] = none_left
chunks_from-AllWithin (suc fuel) n (b ∷ bs) =
    one_more (omega (arith, length-take (suc n) (b ∷ bs)))
      (omega (arith, length-take (suc n) (b ∷ bs)))
      (chunks_from-AllWithin fuel n (drop (suc n) (b ∷ bs)))

lacks-append :
    (b : ℕ) (s t : Bytes) → lacks b (s ++ t) ≡ true → (lacks b s ≡ true) × (lacks b t ≡ true)
unfolding lacks
lacks-append b [] t h = (refl, h)
lacks-append b (c ∷ s) t h = ground (arith, h, lacks-append b s t)

concat-AllLack : (b : ℕ) (pieces : List Bytes) → lacks b (concat pieces) ≡ true → AllLack b pieces
unfolding concat
concat-AllLack b [] h = tt
concat-AllLack b (piece ∷ pieces) h =
    let (now, later) = lacks-append b piece (concat pieces) h in
    (now, concat-AllLack b pieces later)

abbrev pub begin_line : Bytes
begin_line = codes "-----BEGIN CERTIFICATE-----"

abbrev pub end_line : Bytes
end_line = codes "-----END CERTIFICATE-----"

module _ (lib : CertLib) where
  -- If the base64 text of a certificate holds no line end, the lines of its PEM block are the two
  -- markers and between them lines of 1 to 64 bytes, which make up that text, none lost or added.
  pub lines-pem_encode :
      (cert : Bytes)
      → lacks 10 (lib.base64 cert) ≡ true
      → lacks 13 (lib.base64 cert) ≡ true
      → (pieces : List Bytes) × (lines (pem_encode lib cert)
          ≡ begin_line ∷ (pieces ++ end_line ∷ []))
        × (concat pieces ≡ lib.base64 cert)
        × AllWithin 64 pieces
  unfolding pem_encode
  lines-pem_encode cert ends returns =
      (pieces, block, whole, chunks_from-AllWithin (length text) 63 text)
    where
      text : Bytes
      text = lib.base64 cert

      pieces : List Bytes
      pieces = chunks 64 text

      whole : concat pieces ≡ text
      whole = concat-chunks_from (length text) 63 text (omega arith)

      lack : (b : ℕ) → lacks b text ≡ true → AllLack b pieces
      lack b h = concat-AllLack b pieces (ap (lacks b) whole ∙ h)

      block : lines (pem_encode lib cert) ≡ begin_line ∷ (pieces ++ end_line ∷ [])
      block =
          ap lines (ap (λ t. begin_line ++ 10 ∷ t) (sym (push_lines-append pieces end_line)))
          ∙ unfold push_lines in
            lines-push_lines (begin_line ∷ (pieces ++ end_line ∷ []))
              (unfold lacks in (refl, AllLack-append 10 pieces end_line (lack 10 ends) refl))
              (unfold lacks in (refl, AllLack-append 13 pieces end_line (lack 13 returns) refl))
