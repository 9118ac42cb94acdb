-- ===== src/Proxy/Headers.antt =====
-- Which fields pass the proxy, and which a replayed response carries.
use cicache.Prelude.{
  ℕ, ◌≡◌, ◌∙◌, refl, ◌||◌, List, [], ◌∷◌, ◌++◌, Option, some, length, append_assoc, append-nil,
  arith, Bool-cases, inl, inr, if◌then◌else◌,
}
use cicache.Text.Utf8.{Bytes, codes}
use cicache.Text.Compare.{same, same_iff}
use cicache.Text.Number.{decimal}
use cicache.Http.{Field, HeaderLib, HeaderLaws, TextLaws, values}
use cicache.Entry.{Entry, Codec, contains, new, header_map}
use cicache.Entry
use cicache.Entry.Headers.{text_values, values-header_map}
use cicache.Proxy.{hop_by_hop, sanitize_from, sanitize, insert_cache_header, build, replay}

module _ (lib : HeaderLib) (laws : HeaderLaws lib) where
  values-sanitize_from :
      (out : lib.HeaderMap) (fields : List Field) (k : Bytes)
      → values k (lib.iter (sanitize_from lib out fields))
        ≡ values k (lib.iter out)
          ++ (if contains hop_by_hop k || same k (codes "host") then [] else values k fields)
  unfolding sanitize_from values
  values-sanitize_from out [] k = ground (arith, append-nil (values k (lib.iter out)))
  values-sanitize_from out ((name, value) ∷ fields) k =
      elim (Bool-cases (contains hop_by_hop name || same name (codes "host"))) [
        | inl dropped ↦
            rw dropped (ground (arith, same_iff name k, dropped, values-sanitize_from out fields k))
        | inr kept ↦ rw kept (
            ground (
              arith,
              kept,
              values-sanitize_from (lib.append out name value) fields k,
              laws.values-append out name value k,
              same_iff name k,
              append_assoc (values k (lib.iter out)) (value ∷ []) (values k fields),
            ))
      ]

  -- Of a header map the proxy passes on the values of every name, in their order, but those of
  -- `host` and of the names that are scoped to a hop.
  pub values-sanitize :
      (headers : lib.HeaderMap) (k : Bytes)
      → values k (lib.iter (sanitize lib headers)) ≡ (
          if contains hop_by_hop k || same k (codes "host")
          then []
          else values k (lib.iter headers))
  unfolding sanitize
  values-sanitize headers k =
      values-sanitize_from lib.empty (lib.iter headers) k ∙ rw (laws.values-empty k)

  values-build :
      (status : ℕ) (headers : lib.HeaderMap) (body cache k : Bytes)
      → lib.from_str cache ≡ some cache
      → values k (lib.iter (build lib status headers body cache).headers) ≡ (
          if same (codes "x-cicache") k
          then cache ∷ []
          else if same (codes "content-length") k
          then decimal (length body) ∷ []
          else values k (lib.iter headers))
  unfolding build insert_cache_header
  values-build status headers body cache k parses =
      rw
        (
          parses,
          laws.values-insert _ (codes "x-cicache") cache k,
          laws.values-insert _ (codes "content-length") (decimal (length body)) k,
          laws.values-remove headers (codes "content-length") k,
        )
        (ground arith)

  -- A response that is replayed from the entry of a stored one has its body and, where it is a
  -- valid status, its status; it is marked as a hit and states the length of its body; and of every
  -- other name it carries the stored values that read as texts, but those that are scoped to a hop.
  pub replay-new :
      (texts : TextLaws lib) (from_u16 : ℕ → Option ℕ) (codec : Codec) (now : ℕ) (url : Bytes)
      (status : ℕ) (headers : lib.HeaderMap) (body k : Bytes)
      → lib.from_str (codes "HIT") ≡ some (codes "HIT")
      → from_u16 status ≡ some status
      → let r = replay lib from_u16 (new lib codec now url status headers body) in
        (r.status ≡ status)
        × (r.body ≡ body)
        × (values k (lib.iter r.headers) ≡ (
            if same (codes "x-cicache") k
            then codes "HIT" ∷ []
            else if same (codes "content-length") k
            then decimal (length body) ∷ []
            else if contains Entry.hop_by_hop k
            then []
            else text_values lib (values k (lib.iter headers))))
  unfolding new
  replay-new texts from_u16 codec now url status headers body k hit valid = (
    status_kept,
    unfold replay build in refl,
    unfold replay in
        values-build _ (header_map lib entry) body (codes "HIT") k hit
        ∙ rw (values-header_map lib laws texts codec now url status headers body k) refl,
  )
    where
      entry : Entry
      entry = new lib codec now url status headers body

      status_kept : (replay lib from_u16 entry).status ≡ status
      status_kept = unfold replay build new in rw valid refl
