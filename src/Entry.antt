-- ===== src/Entry.antt =====
-- src/entry.rs: the wire format of a cached response.
-- The JSON and digest libraries and the clock are parameters.
pub mod Laws
pub mod Headers
pub mod Instance
mod Tests
use cicache.Prelude.{
  ℕ, zero, suc, ◌+◌, ◌%◌, ◌^◌, Bool, true, false, ◌||◌, not, Option, none, some, List, [], ◌∷◌,
  ◌++◌, length, ltb, ◌≡◌, if◌then◌else◌, drop,
}
use cicache.Text.Utf8.{Bytes, codes}
use cicache.Text.Integer.{to_le_bytes, from_le_bytes, slice}
use cicache.Text.Compare.{same}
use cicache.Http.{Field, HeaderLib}

abbrev pub magic : Bytes
magic = codes "CICH"

abbrev pub hop_by_hop : List Bytes
hop_by_hop =
    codes "connection"
    ∷ codes "keep-alive"
    ∷ codes "proxy-authenticate"
    ∷ codes "proxy-authorization"
    ∷ codes "proxy-connection"
    ∷ codes "te"
    ∷ codes "trailer"
    ∷ codes "transfer-encoding"
    ∷ codes "upgrade"
    ∷ []

pub record Header : Type 0 where
  pub url : Bytes
  pub status : ℕ
  pub headers : List Field
  pub sha256 : Bytes
  pub stored_at : ℕ

pub record Entry : Type 0 where
  pub header : Header
  pub body : Bytes

pub data Error : Type 0 where
  json_error not_an_entry truncated failed_integrity : Error

pub data Result {ℓ} (A : Type ℓ) : Type ℓ where
  ok : A → Result A
  err : Error → Result A

-- `serde_json` at the type `Header`, and `hex::encode(Sha256::digest(…))`.
pub record Codec : Type 0 where
  pub to_vec : Header → Option Bytes
  pub from_slice : Bytes → Option Header
  pub digest : Bytes → Bytes

-- What is documented of `serde_json` here: it reads back what it wrote.
pub record CodecLaws (codec : Codec) : Type 0 where
  pub reads_back : (h : Header) (b : Bytes) → codec.to_vec h ≡ some b → codec.from_slice b ≡ some h

unfoldable pub contains : List Bytes → Bytes → Bool
contains [] name = false
contains (x ∷ xs) name = same x name || contains xs name

module _ (lib : HeaderLib) where
  -- The two filters of `Entry::new`, in one pass over the fields.
  unfoldable pub stored_headers : List Field → List Field
  stored_headers [] = []
  stored_headers ((name, value) ∷ fields) =
      let rest = stored_headers fields in
      if contains hop_by_hop name
      then rest
      else elim (lib.to_str value) [ none ↦ rest | some v ↦ (name, v) ∷ rest ]

  -- `now` is the clock in seconds, or the default 0 where it stands before the epoch.
  unfoldable pub new : Codec → ℕ → Bytes → ℕ → lib.HeaderMap → Bytes → Entry
  new codec now url status headers body = record {
    header = record {
      url = url;
      status = status;
      headers = stored_headers (lib.iter headers);
      sha256 = codec.digest body;
      stored_at = now;
    };
    body = body;
  }

  append_parsed : Option Bytes → Option Bytes → lib.HeaderMap → lib.HeaderMap
  append_parsed (some name) (some value) map = lib.append map name value
  append_parsed _ _ map = map

  unfoldable pub header_map_from : lib.HeaderMap → List Field → lib.HeaderMap
  unfolding append_parsed
  header_map_from map [] = map
  header_map_from map ((name, value) ∷ fields) =
      header_map_from (append_parsed (lib.parse_name name) (lib.from_str value) map) fields

  unfoldable pub header_map : Entry → lib.HeaderMap
  header_map e = header_map_from lib.empty e.header.headers

module _ (codec : Codec) where
  unfoldable pub encode : Entry → Result Bytes
  encode e = elim (codec.to_vec e.header) [
    | none ↦ err json_error
    | some header ↦ ok (magic ++ (to_le_bytes 4 (length header % 2 ^ 32) ++ (header ++ e.body)))
  ]

  unfoldable pub check_digest : Header → Bytes → Result Entry
  check_digest header body =
      if not (same (codec.digest body) header.sha256)
      then err failed_integrity
      else ok (record { header = header; body = body })

  unfoldable pub decode_from : Bytes → ℕ → Result Entry
  decode_from raw body_start =
      if ltb (length raw) body_start
      then err truncated
      else elim (codec.from_slice (slice raw 8 body_start)) [
        | none ↦ err json_error
        | some header ↦ check_digest header (drop body_start raw)
      ]

  unfoldable pub decode : Bytes → Result Entry
  decode raw =
      if ltb (length raw) 8 || not (same (slice raw 0 4) magic)
      then err not_an_entry
      else decode_from raw (8 + from_le_bytes (slice raw 4 8))
