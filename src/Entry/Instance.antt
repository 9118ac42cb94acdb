-- ===== src/Entry/Instance.antt =====
-- A small codec for headers with no fields: the two numbers, the length of the URL, the URL and the
-- digest. The digest of a body is its length.
use cicache.Prelude.{
  ◌≡◌, refl, Option, none, some, List, [], ◌∷◌, ◌++◌, arith, length, take, drop, take-append,
  drop-append,
}
use cicache.Text.Utf8.{Bytes}
use cicache.Http.{Field}
use cicache.Entry.{Header, Codec, CodecLaws}

abbrev pub write : List Field → Header → Option Bytes
write [] h = some (h.status ∷ h.stored_at ∷ length h.url ∷ (h.url ++ h.sha256))
write (f ∷ fields) h = none

abbrev pub read : Bytes → Option Header
read (status ∷ stored_at ∷ n ∷ rest) = some (record {
  url = take n rest;
  status = status;
  headers = [];
  sha256 = drop n rest;
  stored_at = stored_at;
})
read _ = none

abbrev pub small : Codec
small = record {
  to_vec = λ h. write h.headers h;
  from_slice = read;
  digest = λ body. length body ∷ [];
}

read-write :
    (fields : List Field) (h : Header) (b : Bytes)
    → h.headers ≡ fields
    → write fields h ≡ some b
    → read b ≡ some h
read-write [] h b e w = ground (
  arith,
  take-append h.url h.sha256 (length h.url) refl,
  drop-append h.url h.sha256 (length h.url) refl,
)
read-write (f ∷ fields) h b e w = cc

pub small-laws : CodecLaws small
small-laws = record { reads_back = λ h b w. read-write h.headers h b refl w }
