-- ===== src/Pack/Input.antt =====
-- What `decode` makes of bytes that need not come from `encode`.
use cicache.Prelude.{
  ℕ, zero, suc, ◌+◌, ◌^◌, ◌≤◌, ◌<◌, ◌≡◌, ◌≢◌, ◌↔◌, refl, ap, ◌∙◌, not, ◌||◌, true, List, [], ◌∷◌,
  ◌++◌, arith, length, take, length-append, length-take, ltb, leb, Bool-cases, inl, inr,
}
use cicache.Text.Utf8.{Bytes, utf8_valid}
use cicache.Text.Compare.{same, same_iff}
use cicache.Text.Integer.{slice, to_le_bytes, length-to_le_bytes}
use cicache.Pack.{
  Object, Run, returned, panicked, out_of_fuel, err, not_a_pack, Round, stop, fault, read, magic,
  read_body, read_key, read_record, decode_from, decode, ok_run,
}
use cicache.Pack.Records.{read_record-eq-read_key, read_key-eq-read_body, read_body-wraps}
use cicache.Pack.Laws.{decode_lem}

read_record-advances :
    (raw : Bytes) (at next : ℕ) (o : Object)
    → read_record raw at ≡ read o next
    → (at < next) × (next ≤ length raw)
unfolding read_record read_key read_body
read_record-advances raw at next o h = ground arith

-- The rest of a round, once the record is read.
go_on : ℕ → Bytes → List Object → Round → Run (List Object)
go_on fuel raw acc stop = returned acc
go_on fuel raw acc fault = panicked
go_on fuel raw acc (read o next) = decode_from fuel raw next (acc ++ o ∷ [])

go_on-ends :
    (fuel : ℕ) (raw : Bytes) (acc : List Object) (r : Round)
    → ((o : Object) (next : ℕ)
        → r ≡ read o next
        → decode_from fuel raw next (acc ++ o ∷ []) ≢ out_of_fuel)
    → go_on fuel raw acc r ≢ out_of_fuel
unfolding go_on
go_on-ends fuel raw acc stop h e = cc
go_on-ends fuel raw acc fault h e = cc
go_on-ends fuel raw acc (read o next) h e = h o next refl e

decode_from-go_on :
    (fuel : ℕ) (raw : Bytes) (at : ℕ) (acc : List Object)
    → leb (at + 4) (length raw) ≡ true
    → decode_from (suc fuel) raw at acc ≡ go_on fuel raw acc (read_record raw at)
unfolding decode_from go_on
decode_from-go_on fuel raw at acc h = ground arith

-- Every input is read to its end within the fuel.
decode_from-ends :
    (fuel : ℕ) (raw : Bytes) (at : ℕ) (acc : List Object)
    → at ≤ length raw
    → length raw < at + fuel
    → decode_from fuel raw at acc ≢ out_of_fuel
decode_from-ends zero raw at acc k h = absurd (omega arith)
decode_from-ends (suc fuel) raw at acc k h = elim (Bool-cases (leb (at + 4) (length raw))) [
  | inl more ↦ rw (decode_from-go_on fuel raw at acc more) (
      go_on-ends fuel raw acc (read_record raw at) (λ o next e.
        let (forward, inside) = read_record-advances raw at next o e in
        decode_from-ends fuel raw next (acc ++ o ∷ []) inside (omega arith)))
  | inr done ↦ unfold decode_from in rw done (λ e. cc)
]

ok_run-ends {ℓ} : {A : Type ℓ} (r : Run A) → r ≢ out_of_fuel → ok_run r ≢ out_of_fuel
ok_run-ends (returned a) h e = cc
ok_run-ends panicked h e = cc
ok_run-ends out_of_fuel h e = h refl

ok_run-ne-err {ℓ} : {A : Type ℓ} (r : Run A) → ok_run r ≢ returned (err not_a_pack)
ok_run-ne-err (returned a) e = cc
ok_run-ne-err panicked e = cc
ok_run-ne-err out_of_fuel e = cc

-- `decode` ends on every input: its loop is never cut short.
pub decode-ends : (raw : Bytes) → decode raw ≢ out_of_fuel
unfolding decode
decode-ends raw = elim (Bool-cases (ltb (length raw) 4 || not (same (slice raw 0 4) magic))) [
  | inl refused ↦ rw refused (λ e. cc)
  | inr accepted ↦ rw accepted (
      ok_run-ends (decode_from (suc (length raw)) raw 4 [])
        (decode_from-ends (suc (length raw)) raw 4 [] (ground arith) (omega arith)))
]

-- `decode` refuses exactly the inputs that do not begin with the magic number.
pub decode-refuses_iff :
    (raw : Bytes) → (decode raw ≡ returned (err not_a_pack)) ↔ (take 4 raw ≢ magic)
unfolding decode
decode-refuses_iff raw = (
  λ e p. grind (
    arith,
    same_iff (take 4 raw) magic,
    length-take 4 raw,
    ap length p,
    ok_run-ne-err (decode_from (suc (length raw)) raw 4 []),
  ),
  λ h. grind (arith, same_iff (take 4 raw) magic),
)

-- A body length for which the end of the body passes the width of a `usize` makes `decode` panic,
-- whatever stands behind it.
pub decode-wrapped_len :
    (key : Bytes) (n : ℕ) (t : Bytes)
    → utf8_valid key ≡ true
    → length key < 2 ^ 32
    → n < 2 ^ 64
    → 2 ^ 64 ≤ 16 + length key + n
    → decode (magic ++ (to_le_bytes 4 (length key) ++ (key ++ (to_le_bytes 8 n ++ t)))) ≡ panicked
unfolding go_on
decode-wrapped_len key n t valid small h wraps = decode_lem _ ∙ ap ok_run loop
  where
    rest : Bytes
    rest = key ++ (to_le_bytes 8 n ++ t)

    raw : Bytes
    raw = magic ++ (to_le_bytes 4 (length key) ++ rest)

    long : 16 + length key ≤ length raw
    long =
        omega (arith, length-append {0}, length-to_le_bytes 4 (length key), length-to_le_bytes 8 n)

    faults : read_record raw 4 ≡ fault
    faults =
        read_record-eq-read_key (length key) magic rest 4 refl small
        ∙ (read_key-eq-read_body key n (magic ++ to_le_bytes 4 (length key)) t 8
              (omega (arith, length-to_le_bytes 4 (length key))) valid h
            ∙ read_body-wraps raw key (8 + length key + 8) n (omega (arith, long)) (omega arith) h
                (omega arith))

    loop : decode_from (suc (length raw)) raw 4 [] ≡ panicked
    loop = rw (decode_from-go_on (length raw) raw 4 [] (ground (arith, long)), faults)
