-- ===== src/Pack/Tests.antt =====
-- The unit tests of src/pack.rs, and the theorems at their inputs.
use cicache.Prelude.{◌≡◌, ◌≢◌, ◌≤◌, refl, List, [], ◌∷◌, ◌++◌, take, length, arith, ◌^◌, ◌-◌}
use cicache.Text.Utf8.{codes, from_utf8, utf8_valid}
use cicache.Text.Integer.{to_le_bytes, from_le_bytes}
use cicache.Text.Compare.{same}
use cicache.Pack.{
  Object, returned, panicked, out_of_fuel, ok, err, not_a_pack, magic, encode, decode, decode_from,
  read_record, read_key, read_body, encode_from, record_bytes,
}
use cicache.Pack.Records.{IsStorable}
use cicache.Pack.Laws.{
  AllStorable, kept_from, kept, intact, length-encode-le, decode-take-encode, total_len,
}
use cicache.Pack.Input.{decode-ends, decode-wrapped_len}

abbrev alpha : Object
alpha = record { key = codes "alpha"; body = codes "first body" }

abbrev sample : List Object
sample = alpha ∷ record { key = codes "beta"; body = codes "second body" } ∷ []

-- Names what the tests run.
runs : Unit {0}
unfolding decode decode_from read_record read_key read_body same encode encode_from record_bytes
    from_utf8 utf8_valid to_le_bytes from_le_bytes kept_from intact total_len
runs = tt

round_trips : decode (encode sample 1000) ≡ returned (ok sample)
unfolding runs
round_trips = refl

stops_at_the_size_ceiling : decode (encode sample 40) ≡ returned (ok (alpha ∷ []))
unfolding runs
stops_at_the_size_ceiling = refl

recovers_what_survives_truncation :
    decode (take (length (encode sample 1000) - 3) (encode sample 1000))
    ≡ returned (ok (alpha ∷ []))
unfolding runs
recovers_what_survives_truncation = refl

rejects_foreign_data : decode (codes "not a pack at all") ≡ returned (err not_a_pack)
unfolding runs
rejects_foreign_data = refl

sample-AllStorable : AllStorable sample
unfolding runs
sample-AllStorable =
    let fits : IsStorable alpha = record {
      text = refl;
      key_fits = omega arith;
      body_fits = omega arith;
    } in
    (fits, (record { text = refl; key_fits = omega arith; body_fits = omega arith }, tt))

length-encode-le_example : length (encode sample 40) ≤ 40
length-encode-le_example = length-encode-le sample 40 (omega arith)

decode-take-encode_example :
    decode (take 40 (encode sample 1000)) ≡ returned (ok (intact 36 (kept sample 1000)))
unfolding runs
decode-take-encode_example =
    decode-take-encode sample 1000 40 sample-AllStorable (omega arith) (omega arith) (omega arith)

decode-ends_example : decode (codes "CICP????") ≢ out_of_fuel
decode-ends_example = decode-ends (codes "CICP????")

decode-wrapped_len_example :
    decode (magic ++ (to_le_bytes 4 1 ++ (codes "k" ++ (to_le_bytes 8 (2 ^ 64 - 1) ++ []))))
    ≡ panicked
unfolding runs
decode-wrapped_len_example =
    decode-wrapped_len (codes "k") (2 ^ 64 - 1) [] refl (omega arith) (omega arith) (omega arith)
