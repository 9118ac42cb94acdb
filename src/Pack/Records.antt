-- ===== src/Pack/Records.antt =====
-- One record of a pack: its length, and what a round of `decode` makes of it, whole or cut short.
use cicache.Prelude.{
  ℕ, ◌+◌, ◌-◌, ◌%◌, ◌^◌, ◌≤◌, ◌<◌, ◌≡◌, sym, ap, ◌∙◌, true, ◌++◌, append_assoc, arith, length, take,
  length-append, length-take, take-append_more, ltb, Bool-cases, inl, inr, le→ltb,
}
use cicache.Text.Utf8.{Bytes, utf8_valid, from_utf8}
use cicache.Text.Integer.{
  to_le_bytes, from_le_bytes, from_le_bytes-to_le_bytes, length-to_le_bytes, slice, slice_middle,
}
use cicache.Pack.{
  Object, stop, fault, read, record_len, record_bytes, read_body, read_key, read_record,
}

-- What the types of the source ensure of an object: its key is a `String`, and the lengths fit the
-- fields of a record.
pub record IsStorable (o : Object) : Type 0 where
  pub text : utf8_valid o.key ≡ true
  pub key_fits : length o.key < 2 ^ 32
  pub body_fits : length o.body < 2 ^ 63

pub length-record_bytes : (o : Object) → length (record_bytes o) ≡ record_len o
unfolding record_bytes
length-record_bytes o = omega (
  arith,
  length-append {0},
  length-to_le_bytes 4 (length o.key % 2 ^ 32),
  length-to_le_bytes 8 (length o.body % 2 ^ 64),
)

-- The length fields are read back.
le_slice :
    (w n : ℕ) (pre t : Bytes) (at : ℕ)
    → at ≡ length pre
    → n < 256 ^ w
    → from_le_bytes (slice (pre ++ (to_le_bytes w n ++ t)) at (at + w)) ≡ n
le_slice w n pre t at e h =
    rw (slice_middle pre (to_le_bytes w n) t at (at + w) e (omega (arith, length-to_le_bytes w n)))
      (from_le_bytes-to_le_bytes w n h)

pub read_record-eq-read_key :
    (n : ℕ) (pre t : Bytes) (at : ℕ)
    → at ≡ length pre
    → n < 2 ^ 32
    → read_record (pre ++ (to_le_bytes 4 n ++ t)) at
      ≡ read_key (pre ++ (to_le_bytes 4 n ++ t)) (at + 4) n
unfolding read_record
read_record-eq-read_key n pre t at e h =
    ap (read_key (pre ++ (to_le_bytes 4 n ++ t)) (at + 4)) (le_slice 4 n pre t at e (omega arith))

pub read_key-eq-read_body :
    (key : Bytes) (n : ℕ) (pre t : Bytes) (at : ℕ)
    → at ≡ length pre
    → utf8_valid key ≡ true
    → n < 2 ^ 64
    → let raw = pre ++ (key ++ (to_le_bytes 8 n ++ t)) in
      read_key raw at (length key) ≡ read_body raw key (at + length key + 8) n
unfolding read_key from_utf8
read_key-eq-read_body key n pre t at e valid h =
    rw
      (
        le→ltb (length raw) (at + length key + 8) long,
        slice_middle pre key _ at (at + length key) e (omega arith),
        valid,
      )
      (ap (read_body raw key (at + length key + 8)) field)
  where
    raw : Bytes
    raw = pre ++ (key ++ (to_le_bytes 8 n ++ t))

    long : at + length key + 8 ≤ length raw
    long = omega (arith, length-append {0}, length-to_le_bytes 8 n)

    field : from_le_bytes (slice raw (at + length key) (at + length key + 8)) ≡ n
    field = rw (← append_assoc pre key (to_le_bytes 8 n ++ t)) (
        le_slice 8 n (pre ++ key) t (at + length key) (omega (arith, length-append {0}))
          (omega arith))

pub read_body-whole :
    (key body : Bytes) (pre t : Bytes) (at : ℕ)
    → at ≡ length pre
    → length (pre ++ (body ++ t)) < 2 ^ 63
    → read_body (pre ++ (body ++ t)) key at (length body)
      ≡ read (record { key = key; body = body }) (at + length body)
unfolding read_body
read_body-whole key body pre t at e h = rw (
  wrapped,
  le→ltb (length raw) (at + length body) (omega (arith, length-append {0})),
  le→ltb (at + length body) at (omega arith),
  slice_middle pre body t at (at + length body) e (omega arith),
)
  where
    raw : Bytes
    raw = pre ++ (body ++ t)

    wrapped : (at + length body) % 2 ^ 64 ≡ at + length body
    wrapped = omega (arith, length-append {0})

pub read_body-short :
    (raw key : Bytes) (at n : ℕ)
    → length raw < at + n
    → at + n < 2 ^ 64
    → read_body raw key at n ≡ stop
unfolding read_body
read_body-short raw key at n short fits = ground arith

pub read_body-wraps :
    (raw key : Bytes) (at n : ℕ)
    → at ≤ length raw
    → at < 2 ^ 64
    → n < 2 ^ 64
    → 2 ^ 64 ≤ at + n
    → read_body raw key at n ≡ fault
unfolding read_body
read_body-wraps raw key at n inside small h wraps = ground arith

pub read_key-short : (raw : Bytes) (at n : ℕ) → length raw < at + n + 8 → read_key raw at n ≡ stop
unfolding read_key
read_key-short raw at n short = ground arith

-- The rest of a record, behind its first length field.
abbrev after_key_len : Object → Bytes
after_key_len o = o.key ++ (to_le_bytes 8 (length o.body % 2 ^ 64) ++ o.body)

module _ (o : Object) (s : IsStorable o) (pre : Bytes) (at : ℕ) (e : at ≡ length pre) where
  abbrev field₁ : Bytes
  field₁ = to_le_bytes 4 (length o.key % 2 ^ 32)

  abbrev field₂ : Bytes
  field₂ = to_le_bytes 8 (length o.body % 2 ^ 64)

  key_len : length o.key % 2 ^ 32 ≡ length o.key
  key_len = omega (arith, s.key_fits)

  body_len : length o.body % 2 ^ 64 ≡ length o.body
  body_len = omega (arith, s.body_fits)

  -- A round that finds at least the first field of a record goes on to its key.
  at_key :
      (t : Bytes)
      → read_record (pre ++ (field₁ ++ t)) at
        ≡ read_key (pre ++ (field₁ ++ t)) (at + 4) (length o.key)
  at_key t =
      read_record-eq-read_key (length o.key % 2 ^ 32) pre t at e (omega arith)
      ∙ ap (read_key (pre ++ (field₁ ++ t)) (at + 4)) key_len

  -- A round that finds the key and the second field goes on to the body.
  at_body :
      (t : Bytes)
      → let raw = pre ++ (field₁ ++ (o.key ++ (field₂ ++ t))) in
        read_record raw at ≡ read_body raw o.key (at + 4 + length o.key + 8) (length o.body)
  at_body t =
      at_key _
      ∙ (rw (← append_assoc pre field₁ (o.key ++ (field₂ ++ t))) (
          read_key-eq-read_body o.key (length o.body % 2 ^ 64) (pre ++ field₁) t (at + 4)
            (omega (arith, length-append {0}, length-to_le_bytes 4 (length o.key % 2 ^ 32))) s.text
            (omega arith)
          ∙ ap (read_body _ o.key (at + 4 + length o.key + 8)) body_len))

  length-field₁ : length field₁ ≡ 4
  length-field₁ = length-to_le_bytes 4 (length o.key % 2 ^ 32)

  length-field₂ : length field₂ ≡ 8
  length-field₂ = length-to_le_bytes 8 (length o.body % 2 ^ 64)

  record_bytes-append :
      (rest : Bytes) → record_bytes o ++ rest ≡ field₁ ++ (o.key ++ (field₂ ++ (o.body ++ rest)))
  unfolding record_bytes
  record_bytes-append rest = simp append_assoc

  -- A whole record is read, whatever follows it.
  pub read_record-whole :
      (rest : Bytes)
      → length (pre ++ (record_bytes o ++ rest)) < 2 ^ 63
      → read_record (pre ++ (record_bytes o ++ rest)) at ≡ read o (at + record_len o)
  read_record-whole rest h =
      rw (record_bytes-append rest) (at_body (o.body ++ rest) ∙ rw (sym regroup) whole)
    where
      head : Bytes
      head = pre ++ (field₁ ++ (o.key ++ field₂))

      regroup :
          head ++ (o.body ++ rest) ≡ pre ++ (field₁ ++ (o.key ++ (field₂ ++ (o.body ++ rest))))
      regroup = simp append_assoc

      whole :
          read_body (head ++ (o.body ++ rest)) o.key (at + 4 + length o.key + 8) (length o.body)
          ≡ read o (at + record_len o)
      whole =
          read_body-whole o.key o.body head rest (at + 4 + length o.key + 8)
            (omega (arith, length-append {0}, length-field₁, length-field₂))
            (rw regroup (rw (record_bytes-append rest) at h))
          ∙ ap (read o) (omega arith)

  cut_key :
      (n : ℕ) (t : Bytes)
      → n < 4 + length o.key + 8
      → length field₁ ≤ n
      → read_record (pre ++ (field₁ ++ take (n - length field₁) t)) at ≡ stop
  cut_key n t h k =
      at_key _
      ∙ read_key-short _ (at + 4) (length o.key)
          (omega (arith, length-append {0}, length-take {0}, length-field₁))

  cut_body :
      (n : ℕ) (t : Bytes)
      → n < length o.body
      → at + record_len o < 2 ^ 63
      → read_record (pre ++ (field₁ ++ (o.key ++ (field₂ ++ take n t)))) at ≡ stop
  cut_body n t h fits =
      at_body _
      ∙ read_body-short _ o.key (at + 4 + length o.key + 8) (length o.body)
          (omega (arith, length-append {0}, length-take {0}, length-field₁, length-field₂))
          (omega arith)

  -- A record that is cut short behind its first field ends the loop.
  pub read_record-short :
      (n : ℕ) (rest : Bytes)
      → 4 ≤ n
      → n < record_len o
      → at + record_len o < 2 ^ 63
      → read_record (pre ++ take n (record_bytes o ++ rest)) at ≡ stop
  read_record-short n rest h k fits =
      rw
        (
          record_bytes-append rest,
          take-append_more field₁ (o.key ++ (field₂ ++ (o.body ++ rest))) n
              (omega (arith, length-field₁)),
        )
        (elim (Bool-cases (ltb n (4 + length o.key + 8))) [
          | inl short ↦ cut_key n _ (ground arith) (omega (arith, length-field₁))
          | inr long ↦
              rw
                (
                  take-append_more o.key (field₂ ++ (o.body ++ rest)) (n - length field₁)
                      (ground (arith, length-field₁)),
                  take-append_more field₂ (o.body ++ rest) (n - length field₁ - length o.key)
                      (ground (arith, length-field₁, length-field₂)),
                )
                (cut_body (n - length field₁ - length o.key - length field₂) _
                  (ground (arith, length-field₁, length-field₂)) fits)
        ])
