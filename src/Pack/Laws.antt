-- ===== src/Pack/Laws.antt =====
-- What `decode` makes of the bytes that `encode` wrote, whole or cut short, and of any bytes.
use cicache.Prelude.{
  ℕ, zero, suc, ◌+◌, ◌-◌, ◌^◌, ◌≤◌, ◌<◌, ◌≡◌, refl, sym, ap, ◌∙◌, List, [], ◌∷◌, ◌++◌, append_assoc,
  append-nil, arith, length, take, length-append, length-take, take-append_more, ltb, Bool-cases,
  inl, inr, if◌then◌else◌, take_all, le→ltb,
}
use cicache.Text.Utf8.{Bytes}
use cicache.Text.Compare.{same}
use cicache.Pack.{
  Object, returned, ok, stop, read, magic, record_len, record_bytes, encode_from, encode,
  read_record, decode_from, decode, ok_run,
}
use cicache.Pack.Records.{IsStorable, length-record_bytes, read_record-whole, read_record-short}

-- The objects that fit, chosen in order, when `used` bytes are taken already.
unfoldable pub kept_from : ℕ → List Object → ℕ → List Object
kept_from used [] max_bytes = []
kept_from used (o ∷ objects) max_bytes =
    let rest = kept_from (used + record_len o) objects max_bytes in
    if ltb max_bytes (used + record_len o) then kept_from used objects max_bytes else o ∷ rest

abbrev pub kept : List Object → ℕ → List Object
kept objects max_bytes = kept_from 4 objects max_bytes

-- The objects whose records lie whole within the first `n` bytes.
unfoldable pub intact : ℕ → List Object → List Object
intact n [] = []
intact n (o ∷ objects) =
    let rest = intact (n - record_len o) objects in if ltb n (record_len o) then [] else o ∷ rest

abbrev pub AllStorable : List Object → Type 0
AllStorable [] = Unit
AllStorable (o ∷ objects) = IsStorable o × AllStorable objects

records : List Object → Bytes
records [] = []
records (o ∷ objects) = record_bytes o ++ records objects

encode_from-records :
    (out : Bytes) (objects : List Object) (max_bytes : ℕ)
    → encode_from out objects max_bytes ≡ out ++ records (kept_from (length out) objects max_bytes)
unfolding encode_from kept_from records
encode_from-records out [] max_bytes = sym (append-nil out)
encode_from-records out (o ∷ objects) max_bytes =
    elim (Bool-cases (ltb max_bytes (length out + record_len o))) [
      | inl big ↦ rw big (encode_from-records out objects max_bytes)
      | inr fits ↦ rw fits (
          encode_from-records (out ++ record_bytes o) objects max_bytes
          ∙ rw (length-append out (record_bytes o), length-record_bytes o, append_assoc))
    ]

length-kept :
    (used : ℕ) (objects : List Object) (max_bytes : ℕ)
    → used ≤ max_bytes
    → used + length (records (kept_from used objects max_bytes)) ≤ max_bytes
unfolding kept_from records
length-kept used [] max_bytes h = omega arith
length-kept used (o ∷ objects) max_bytes h = ground (
  arith,
  length-kept used objects max_bytes h,
  length-kept (used + record_len o) objects max_bytes,
  length-append (record_bytes o) (records (kept_from (used + record_len o) objects max_bytes)),
  length-record_bytes o,
)

-- A pack is never longer than its ceiling, if the ceiling has room for the magic number.
pub length-encode-le :
    (objects : List Object) (max_bytes : ℕ)
    → 4 ≤ max_bytes
    → length (encode objects max_bytes) ≤ max_bytes
unfolding encode
length-encode-le objects max_bytes h =
    rw (encode_from-records magic objects max_bytes)
      (omega (arith, length-kept 4 objects max_bytes h))

kept_from-AllStorable :
    (used : ℕ) (objects : List Object) (max_bytes : ℕ)
    → AllStorable objects
    → AllStorable (kept_from used objects max_bytes)
unfolding kept_from
kept_from-AllStorable used [] max_bytes s = tt
kept_from-AllStorable used (o ∷ objects) max_bytes (s, all) = ground (
  arith,
  kept_from-AllStorable used objects max_bytes all,
  kept_from-AllStorable (used + record_len o) objects max_bytes all,
)

-- One round of the loop.
module _ (fuel : ℕ) (raw : Bytes) (at : ℕ) (acc : List Object) where
  decode_from-end : length raw < at + 4 → decode_from (suc fuel) raw at acc ≡ returned acc
  unfolding decode_from
  decode_from-end h = ground arith

  decode_from-stop : read_record raw at ≡ stop → decode_from (suc fuel) raw at acc ≡ returned acc
  unfolding decode_from
  decode_from-stop h = ground arith

  decode_from-read :
      (o : Object) (next : ℕ)
      → at + 4 ≤ length raw
      → read_record raw at ≡ read o next
      → decode_from (suc fuel) raw at acc ≡ decode_from fuel raw next (acc ++ o ∷ [])
  unfolding decode_from
  decode_from-read o next h e = rw (e, decode_from) (ground arith)

-- The loop reads exactly the records that the cut left whole.
decode_from-records :
    (fuel : ℕ) (pre : Bytes) (objects acc : List Object) (n at : ℕ)
    → AllStorable objects
    → at ≡ length pre
    → n < fuel
    → n ≤ length (records objects)
    → at + length (records objects) < 2 ^ 63
    → decode_from fuel (pre ++ take n (records objects)) at acc ≡ returned (acc ++ intact n objects)
unfolding intact records
decode_from-records zero pre objects acc n at s e f h fits = absurd (omega arith)
decode_from-records (suc fuel) pre [] acc n at s e f h fits =
    rw append-nil
      (decode_from-end fuel _ at acc (omega (arith, length-append {0}, length-take {0})))
decode_from-records (suc fuel) pre (o ∷ objects) acc n at (s, all) e f h fits =
    elim (Bool-cases (ltb n (record_len o))) [
      | inl short ↦
          rw (short, append-nil)
            (elim (Bool-cases (ltb n 4)) [
              | inl tiny ↦ decode_from-end fuel _ at acc (
                  ground (
                    arith,
                    length-append pre (take n (record_bytes o ++ records objects)),
                    length-take n (record_bytes o ++ records objects),
                  ))
              | inr some_left ↦ decode_from-stop fuel _ at acc (
                  read_record-short o s pre at e n (records objects) (ground arith) (ground arith)
                    (omega (arith, length-append {0}, length-record_bytes o)))
            ])
      | inr whole ↦
          rw
            (
              whole,
              take-append_more (record_bytes o) (records objects) n
                  (ground (arith, length-record_bytes o)),
              length-record_bytes o,
            )
            (decode_from-read fuel _ at acc o (at + record_len o)
                (omega (arith, length-append {0}, length-record_bytes o))
                (read_record-whole o s pre at e _
                  (omega (arith, length-append {0}, length-take {0})))
              ∙ rw (← append_assoc pre (record_bytes o) (take (n - record_len o) (records objects)))
                  (decode_from-records fuel (pre ++ record_bytes o) objects (acc ++ o ∷ [])
                      (n - record_len o) (at + record_len o) all
                      (omega (arith, length-append {0}, length-record_bytes o)) (ground arith)
                      (omega (arith, length-append {0}, length-record_bytes o))
                      (omega (arith, length-append {0}, length-record_bytes o))
                    ∙ ap returned (append_assoc acc (o ∷ []) (intact (n - record_len o) objects))))
    ]

pub decode_lem :
    (t : Bytes)
    → decode (magic ++ t) ≡ ok_run (decode_from (suc (length (magic ++ t))) (magic ++ t) 4 [])
unfolding decode same
decode_lem t = rw (le→ltb (length (magic ++ t)) 4 (omega arith))

encode_lem :
    (objects : List Object) (max_bytes : ℕ)
    → encode objects max_bytes ≡ magic ++ records (kept objects max_bytes)
unfolding encode
encode_lem objects max_bytes = encode_from-records magic objects max_bytes

decode-magic-records :
    (objects : List Object) (n : ℕ)
    → AllStorable objects
    → n ≤ length (records objects)
    → 4 + length (records objects) < 2 ^ 63
    → decode (magic ++ take n (records objects)) ≡ returned (ok (intact n objects))
decode-magic-records objects n s h fits =
    decode_lem (take n (records objects))
    ∙ ap ok_run (
        decode_from-records (suc (length (magic ++ take n (records objects)))) magic objects [] n 4
          s refl (omega (arith, length-take {0})) h fits)

-- Reading back a prefix of what was written, the magic number at least, gives the objects that
-- fitted under the ceiling and whose records lie whole within the prefix, in their order.
pub decode-take-encode :
    (objects : List Object) (max_bytes n : ℕ)
    → AllStorable objects
    → length (encode objects max_bytes) < 2 ^ 63
    → 4 ≤ n
    → n ≤ length (encode objects max_bytes)
    → decode (take n (encode objects max_bytes))
      ≡ returned (ok (intact (n - 4) (kept objects max_bytes)))
decode-take-encode objects max_bytes n s h m k =
    rw (encode_lem objects max_bytes, take-append_more magic (records (kept objects max_bytes)) n m)
      (decode-magic-records (kept objects max_bytes) (n - 4)
        (kept_from-AllStorable 4 objects max_bytes s)
        (omega (arith, rw (encode_lem objects max_bytes) at k))
        (omega (arith, rw (encode_lem objects max_bytes) at h)))

unfoldable pub total_len : List Object → ℕ
total_len [] = 0
total_len (o ∷ objects) = record_len o + total_len objects

length-records : (objects : List Object) → length (records objects) ≡ total_len objects
unfolding records total_len
length-records [] = refl
length-records (o ∷ objects) =
    omega (arith, length-append {0}, length-record_bytes o, length-records objects)

kept_all :
    (used : ℕ) (objects : List Object) (max_bytes : ℕ)
    → used + total_len objects ≤ max_bytes
    → kept_from used objects max_bytes ≡ objects
unfolding kept_from total_len
kept_all used [] max_bytes h = refl
kept_all used (o ∷ objects) max_bytes h = rw (
  le→ltb max_bytes (used + record_len o) (omega arith),
  kept_all (used + record_len o) objects max_bytes (omega arith),
)

intact_all : (n : ℕ) (objects : List Object) → total_len objects ≤ n → intact n objects ≡ objects
unfolding intact total_len
intact_all n [] h = refl
intact_all n (o ∷ objects) h =
    rw (le→ltb n (record_len o) (omega arith), intact_all (n - record_len o) objects (omega arith))

-- Objects that all fit under the ceiling come back as they were.
pub decode-encode :
    (objects : List Object) (max_bytes : ℕ)
    → AllStorable objects
    → 4 + total_len objects ≤ max_bytes
    → max_bytes < 2 ^ 63
    → decode (encode objects max_bytes) ≡ returned (ok objects)
decode-encode objects max_bytes s h fits =
    rw
      (
        encode_lem objects max_bytes,
        kept_all 4 objects max_bytes h,
        ← take_all (records objects) (length (records objects)) (omega arith),
      )
      (decode-magic-records objects (length (records objects)) s (omega arith)
          (omega (arith, length-records objects))
        ∙ ap (λ os. returned (ok os))
            (intact_all (length (records objects)) objects (omega (arith, length-records objects))))
