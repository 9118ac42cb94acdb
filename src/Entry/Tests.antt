-- ===== src/Entry/Tests.antt =====
-- The theorems on entries at a small codec.
use cicache.Prelude.{◌≡◌, ◌↔◌, ◌≤◌, refl, some, List, [], ◌∷◌, ◌++◌, arith, length, take, drop}
use cicache.Text.Utf8.{Bytes, codes}
use cicache.Text.Integer.{slice, to_le_bytes, from_le_bytes}
use cicache.Text.Compare.{same}
use cicache.Http.{Field, values}
use cicache.Http.Instance.{listed, listed-laws, listed-texts, visible}
use cicache.Entry.{
  Entry, ok, err, failed_integrity, truncated, magic, new, encode, decode, decode_from,
  check_digest, contains, stored_headers, header_map,
}
use cicache.Entry.Instance.{small, small-laws, read}
use cicache.Entry.Laws.{body_start, decode-accepts_iff, decode-encode-new}
use cicache.Entry.Headers.{text_values, values-header_map}

runs : Unit {0}
unfolding decode decode_from check_digest encode new stored_headers contains same to_le_bytes
    from_le_bytes values text_values visible
runs = tt

abbrev sample : Entry
sample = record {
  header = record { url = codes "u"; status = 200; headers = []; sha256 = 3 ∷ []; stored_at = 7 };
  body = codes "abc";
}

abbrev sample_header : Bytes
sample_header = 200 ∷ 7 ∷ 1 ∷ b'u' ∷ 3 ∷ []

abbrev sample_raw : Bytes
sample_raw = codes "CICH" ++ (5 ∷ 0 ∷ 0 ∷ 0 ∷ (sample_header ++ codes "abc"))

encode-sample : encode small sample ≡ ok sample_raw
unfolding runs
encode-sample = refl

decode_changed_body : decode small (sample_raw ++ codes "d") ≡ err failed_integrity
unfolding runs
decode_changed_body = refl

decode_cut_header : decode small (take 12 sample_raw) ≡ err truncated
unfolding runs
decode_cut_header = refl

decode-accepts_iff_example : (decode small sample_raw ≡ ok sample) ↔ (
    (take 4 sample_raw ≡ magic)
    × (8 ≤ length sample_raw)
    × (body_start sample_raw ≤ length sample_raw)
    × (read (slice sample_raw 8 (body_start sample_raw)) ≡ some sample.header)
    × (codes "abc" ≡ drop (body_start sample_raw) sample_raw)
    × (◌≡◌ {A = Bytes} (3 ∷ []) (3 ∷ [])))
decode-accepts_iff_example = decode-accepts_iff small sample_raw sample

decode-encode-new_example : decode small sample_raw ≡ ok sample
unfolding runs
decode-encode-new_example =
    decode-encode-new small small-laws listed 7 (codes "u") 200 [] (codes "abc") sample_header
      sample_raw refl (omega arith) refl

abbrev fields : List Field
fields =
    (codes "te", codes "trailers") ∷ (codes "etag", codes "one") ∷ (codes "etag", codes "two") ∷ []

values-header_map_example :
    values
      (codes "etag")
      (header_map listed (new listed small 7 (codes "u") 200 fields (codes "abc")))
    ≡ codes "one" ∷ codes "two" ∷ []
unfolding runs
values-header_map_example =
    values-header_map listed listed-laws listed-texts small 7 (codes "u") 200 fields (codes "abc")
      (codes "etag")
