-- ===== src/Entry/Laws.antt =====
-- What a decoded entry is, and the round trip of the wire format.
use cicache.Prelude.{
  ℕ, ◌+◌, ◌%◌, ◌^◌, ◌≤◌, ◌<◌, ◌≡◌, ◌↔◌, refl, sym, some, ◌++◌, append_assoc, arith, length, take,
  drop, length-append, drop-append,
}
use cicache.Text.Utf8.{Bytes}
use cicache.Text.Compare.{same_iff}
use cicache.Text.Integer.{
  slice, slice_middle, to_le_bytes, from_le_bytes, from_le_bytes-to_le_bytes, length-to_le_bytes,
}
use cicache.Http.{HeaderLib}
use cicache.Entry.{
  magic, Entry, ok, Codec, CodecLaws, new, encode, decode, decode_from, check_digest,
}

-- Where the body stands, by the length field.
abbrev pub body_start : Bytes → ℕ
body_start raw = 8 + from_le_bytes (slice raw 4 8)

module _ (codec : Codec) where
  -- `decode` accepts exactly the bytes that begin with the magic number, hold a whole header that
  -- the JSON library reads, and then a body whose digest is the one in the header.
  pub decode-accepts_iff :
      (raw : Bytes) (e : Entry)
      → (decode codec raw ≡ ok e) ↔ (
          (take 4 raw ≡ magic)
          × (8 ≤ length raw)
          × (body_start raw ≤ length raw)
          × (codec.from_slice (slice raw 8 (body_start raw)) ≡ some e.header)
          × (e.body ≡ drop (body_start raw) raw)
          × (codec.digest e.body ≡ e.header.sha256))
  unfolding decode decode_from check_digest
  decode-accepts_iff raw e = (
    λ h. grind (arith, same_iff (take 4 raw) magic, same_iff),
    λ h. grind (arith, same_iff (take 4 raw) magic, same_iff),
  )

  module _ (header body : Bytes) (small : length header < 2 ^ 32) where
    abbrev written : Bytes
    written = magic ++ (to_le_bytes 4 (length header % 2 ^ 32) ++ (header ++ body))

    length-field : length (to_le_bytes 4 (length header % 2 ^ 32)) ≡ 4
    length-field = length-to_le_bytes 4 (length header % 2 ^ 32)

    field_slice : slice written 4 8 ≡ to_le_bytes 4 (length header % 2 ^ 32)
    field_slice =
        slice_middle magic (to_le_bytes 4 (length header % 2 ^ 32)) (header ++ body) 4 8 refl
          (omega (arith, length-field))

    body_start-written : body_start written ≡ 8 + length header
    body_start-written =
        rw (field_slice, from_le_bytes-to_le_bytes 4 (length header % 2 ^ 32) (omega arith))
          (omega arith)

    length-written : length written ≡ 8 + length header + length body
    length-written = omega (arith, length-append {0}, length-field)

    header-written : slice written 8 (body_start written) ≡ header
    header-written =
        slice_middle (magic ++ to_le_bytes 4 (length header % 2 ^ 32)) header body 8
          (body_start written) (omega (arith, length-append {0}, length-field))
          (omega (arith, length-append {0}, length-field, body_start-written))

    body-written : drop (body_start written) written ≡ body
    body-written =
        rw (← append_assoc (magic ++ to_le_bytes 4 (length header % 2 ^ 32)) header body) (
          drop-append ((magic ++ to_le_bytes 4 (length header % 2 ^ 32)) ++ header) body
            (body_start written)
            (omega (
              arith,
              length-append (magic ++ to_le_bytes 4 (length header % 2 ^ 32)) header,
              length-append magic (to_le_bytes 4 (length header % 2 ^ 32)),
              length-field,
              body_start-written,
            )))

  module _ (laws : CodecLaws codec) where
    decode-encode :
        (e : Entry) (header raw : Bytes)
        → codec.to_vec e.header ≡ some header
        → length header < 2 ^ 32
        → codec.digest e.body ≡ e.header.sha256
        → encode codec e ≡ ok raw
        → decode codec raw ≡ ok e
    unfolding encode
    decode-encode e header raw known small digest encoded = rw (← same_raw) (
        (decode-accepts_iff (written header e.body small) e).1 (
          refl,
          omega (arith, length-written header e.body small),
          omega (arith, length-written header e.body small, body_start-written header e.body small),
          rw (header-written header e.body small) (laws.reads_back e.header header known),
          sym (body-written header e.body small),
          digest,
        ))
      where
        same_raw : written header e.body small ≡ raw
        same_raw = ground (arith, known, encoded)

    -- An entry that `new` builds comes back from its bytes, where its header takes less than 2 ^ 32
    -- bytes.
    pub decode-encode-new :
        (lib : HeaderLib) (now : ℕ) (url : Bytes) (status : ℕ) (headers : lib.HeaderMap)
        (body header raw : Bytes)
        → codec.to_vec (new lib codec now url status headers body).header ≡ some header
        → length header < 2 ^ 32
        → encode codec (new lib codec now url status headers body) ≡ ok raw
        → decode codec raw ≡ ok (new lib codec now url status headers body)
    unfolding new
    decode-encode-new lib now url status headers body header raw known small encoded =
        decode-encode _ header raw known small refl encoded
