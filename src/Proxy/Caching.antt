-- ===== src/Proxy/Caching.antt =====
-- That a response which was stored answers the next request.
use cicache.Prelude.{ℕ, ◌≡◌, ◌<◌, ◌^◌, refl, true, false, none, some, length, ltb}
use cicache.Text.Utf8.{Bytes, codes}
use cicache.Text.Set.{has}
use cicache.Entry
use cicache.Entry.{Codec, CodecLaws, Entry}
use cicache.Entry.Laws.{decode-encode-new}
use cicache.Policy
use cicache.Policy.{Policy, Reject, Verdict, request_eligible, response_storable}
use cicache.Stats.{Outcome}
use cicache.Gha.{ok}
use cicache.Store
use cicache.Store.{Fs, FsLaws, StoreConfig, Store}
use cicache.Store.Reads.{get_found, put-disk}
use cicache.Proxy.{sanitize, build, replay}
use cicache.Proxy.Serving.{
  Setup, Reply, or_zero, Proxy, whole, note, upstream_headers, put_encoded, store_response,
  finish_fetch, follow_fetch, fetch_and_store, answer_hit, answer_lookup, serve_eligible,
  follow_verdict, handle,
}

module _ (setup : Setup) where
  open setup use {urls, lib, codec, net, fs, up, digest, from_u16, policy, config}

  -- The key and the entry of a reply with this body.
  abbrev pub key_of : urls.Url → Bytes
  key_of url = Policy.key urls digest policy url

  abbrev pub entry_of : ℕ → urls.Url → Reply lib → Bytes → Entry
  entry_of now url reply body =
      Entry.new lib codec now (urls.to_string url) reply.status (sanitize lib reply.headers) body

  -- A request that finds nothing, and whose reply is stored: the store after the lookup is `t`.
  pub record IsStoredMiss (now : ℕ) (method : Bytes) (url : urls.Url)
      (client_headers : lib.HeaderMap) (s : Proxy setup) (t : Store net fs) (reply : Reply lib)
      (body raw : Bytes) : Type 0 where
    pub world : up.World
    pub eligible : request_eligible urls lib policy method url client_headers ≡ Verdict.ok
    pub absent : Store.get net fs config (key_of url) s.store ≡ (none, t)
    pub replied :
        up.fetch method (urls.to_string url) (upstream_headers setup client_headers) s.world
        ≡ (ok reply, world)
    pub small : ltb policy.max_size (or_zero reply.content_length) ≡ false
    pub whole_body : reply.body ≡ ok body
    pub storable :
        response_storable urls lib policy url reply.status
          (sanitize lib reply.headers)
          (length body)
        ≡ Verdict.ok
    pub encoded : Entry.encode codec (entry_of now url reply body) ≡ Entry.Result.ok raw
    pub new_key : has t.queued (key_of url) ≡ false
    pub written : (fs.write (fs.path (key_of url)) raw t.disk).0 ≡ true

  pub handle-miss :
      (now : ℕ) (method : Bytes) (url : urls.Url) (client_headers : lib.HeaderMap) (s : Proxy setup)
      (t : Store net fs) (reply : Reply lib) (body raw request_body : Bytes)
      (m : IsStoredMiss now method url client_headers s t reply body raw)
      → handle setup now method url client_headers (ok request_body) s ≡ (
        ok (whole (build lib reply.status (sanitize lib reply.headers) body (codes "MISS"))),
        note setup Outcome.stored method (urls.to_string url) (length body) reply.millis (record {
          store = Store.put net fs config (key_of url) raw t;
          log = s.log;
          shutdown = s.shutdown;
          world = m.world;
        }),
      )
  unfolding handle follow_verdict serve_eligible answer_lookup fetch_and_store follow_fetch
      finish_fetch store_response put_encoded
  handle-miss now method url client_headers s t reply body raw request_body m =
      rw (m.eligible, m.absent, m.replied, m.small, m.whole_body, m.storable, m.encoded) refl

  -- A request whose entry is found, on the disk or with a call of the service.
  pub handle-fetched :
      (now : ℕ) (method : Bytes) (url : urls.Url) (client_headers : lib.HeaderMap) (s : Proxy setup)
      (t : Store net fs) (request_body raw : Bytes) (entry : Entry)
      → request_eligible urls lib policy method url client_headers ≡ Verdict.ok
      → Store.get net fs config (key_of url) s.store ≡ (some raw, t)
      → Entry.decode codec raw ≡ Entry.Result.ok entry
      → handle setup now method url client_headers (ok request_body) s ≡ (
        ok (whole (replay lib from_u16 entry)),
        note setup Outcome.hit method
            (urls.to_string url)
            (length entry.body)
            0
            (record s { store = t }),
      )
  unfolding handle follow_verdict serve_eligible answer_lookup answer_hit
  handle-fetched now method url client_headers s t request_body raw entry eligible found decoded =
      rw (eligible, found, decoded) refl

  -- A request whose entry is at hand.
  pub handle-hit :
      (now : ℕ) (method : Bytes) (url : urls.Url) (client_headers : lib.HeaderMap) (s : Proxy setup)
      (request_body raw : Bytes) (entry : Entry)
      → request_eligible urls lib policy method url client_headers ≡ Verdict.ok
      → Store.get net fs config (key_of url) s.store ≡ (some raw, s.store)
      → Entry.decode codec raw ≡ Entry.Result.ok entry
      → handle setup now method url client_headers (ok request_body) s ≡ (
        ok (whole (replay lib from_u16 entry)),
        note setup Outcome.hit method (urls.to_string url) (length entry.body) 0 s,
      )
  handle-hit now method url client_headers s request_body raw entry eligible found decoded =
      handle-fetched now method url client_headers s s.store request_body raw entry eligible found
        decoded

  -- The answer to a request that finds nothing, and whose reply is stored under a key that was not
  -- queued before, is that reply with its headers sanitized. If the file of the object was written
  -- and its JSON header is shorter than 4 GiB, the next request for the URL that may be served from
  -- the cache is answered from the entry, with no call upstream and none to the cache service.
  pub handle-handle :
      (codec_laws : CodecLaws codec) (fs_laws : FsLaws fs) (now now' : ℕ) (method method' : Bytes)
      (url : urls.Url) (client_headers client_headers' : lib.HeaderMap) (s : Proxy setup)
      (t : Store net fs) (reply : Reply lib) (body raw header request_body request_body' : Bytes)
      → IsStoredMiss now method url client_headers s t reply body raw
      → codec.to_vec (entry_of now url reply body).header ≡ some header
      → length header < 2 ^ 32
      → request_eligible urls lib policy method' url client_headers' ≡ Verdict.ok
      → let serve = handle setup in
        let (answer, s') = serve now method url client_headers (ok request_body) s in
        let (answer', s'') = serve now' method' url client_headers' (ok request_body') s' in
        (answer
          ≡ ok (whole (build lib reply.status (sanitize lib reply.headers) body (codes "MISS"))))
        × (answer' ≡ ok (whole (replay lib from_u16 (entry_of now url reply body))))
        × (s''.world ≡ s'.world)
        × (s''.store.remote ≡ s'.store.remote)
  handle-handle codec_laws fs_laws now now' method method' url client_headers client_headers' s t
        reply body raw header request_body request_body' m known short eligible' =
      rw
        (
          handle-miss now method url client_headers s t reply body raw request_body m,
          handle-hit now' method' url client_headers' kept request_body' raw
              (entry_of now url reply body) eligible' found decoded,
        )
        (refl, refl, unfold note in refl, unfold note in refl)
    where
      kept : Proxy setup
      kept =
          note setup Outcome.stored method (urls.to_string url) (length body) reply.millis (record {
            store = Store.put net fs config (key_of url) raw t;
            log = s.log;
            shutdown = s.shutdown;
            world = m.world;
          })

      found : Store.get net fs config (key_of url) kept.store ≡ (some raw, kept.store)
      found = get_found net fs config (key_of url) raw kept.store (
          unfold note in
          rw (put-disk net fs config (key_of url) raw t m.new_key)
            (fs_laws.read_written (fs.path (key_of url)) raw t.disk m.written))

      decoded : Entry.decode codec raw ≡ Entry.Result.ok (entry_of now url reply body)
      decoded =
          decode-encode-new codec codec_laws lib now (urls.to_string url) reply.status
            (sanitize lib reply.headers) body header raw known short m.encoded
