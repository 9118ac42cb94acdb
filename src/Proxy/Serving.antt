-- ===== src/Proxy/Serving.antt =====
-- src/proxy.rs: `handle`, `fetch_and_store` and `forward`. The clients `fetcher` and `forwarder`
-- with what is behind them are a parameter.
use cicache.Prelude.{ℕ, Bool, List, Option, none, some, length, ltb, if◌then◌else◌}
use cicache.Text.Utf8.{Bytes, codes}
use cicache.Http.{HeaderLib, UrlLib}
use cicache.Entry
use cicache.Entry.{Codec, Entry}
use cicache.Policy
use cicache.Policy.{Policy, Reject, Verdict, as_str, request_eligible, response_storable}
use cicache.Stats.{Outcome, LogFile, Summary, record_request}
use cicache.Gha.{Net, Result, ok, err}
use cicache.Store
use cicache.Store.{Fs, StoreConfig, Store}
use cicache.Proxy.{Response, sanitize, insert_cache_header, build, replay}

-- What comes back of a request: the length it declares, if it does, its body, if it can be read to
-- its end, and the time that passed.
pub record Reply (lib : HeaderLib) : Type 0 where
  pub status : ℕ
  pub headers : lib.HeaderMap
  pub content_length : Option ℕ
  pub body : Result Bytes
  pub millis : ℕ

-- `fetch` sends by `fetcher`, without a body, and `forward` by `forwarder`, with one.
pub record Upstream (lib : HeaderLib) : Type 1 where
  pub World : Type 0
  pub fetch : Bytes → Bytes → lib.HeaderMap → World → Result (Reply lib) × World
  pub forward : Bytes → Bytes → lib.HeaderMap → Bytes → World → Result (Reply lib) × World

-- What a proxy is set up with: the libraries, the clients and the surroundings it calls, its policy
-- and the configuration of its store. `digest` is the one of `Policy::key`, and `from_u16` that of
-- `StatusCode`.
pub record Setup : Type 1 where
  pub urls : UrlLib
  -- What the error of `Url::parse` at a text says.
  pub parse_error : Bytes → Bytes
  pub lib : HeaderLib
  pub codec : Codec
  pub net : Net
  pub fs : Fs
  pub up : Upstream lib
  pub digest : Bytes → Bytes
  pub from_u16 : ℕ → Option ℕ
  pub policy : Policy
  pub config : StoreConfig
  pub mitm_ports : List ℕ
  -- `serde_json::to_string_pretty`, or nothing where it fails.
  pub summary_json : Summary → Bytes

abbrev pub or_zero : Option ℕ → ℕ
or_zero none = 0
or_zero (some n) = n

module _ (setup : Setup) where
  open setup use {urls, lib, codec, net, fs, up, digest, from_u16, policy, config}

  -- The counters of `Stats` are those of the store, which shares them; `log` is its log, and
  -- `shutdown` what was last sent to those who wait for the end.
  pub record Proxy : Type 0 where
    pub store : Store net fs
    pub log : Option LogFile
    pub world : up.World
    pub shutdown : Bool

  -- A whole response, or one whose body is passed on as it comes.
  pub data Answer : Type 0 where
    whole : Response lib → Answer
    streamed : ℕ → lib.HeaderMap → Result Bytes → Answer

  -- `Stats::record`.
  unfoldable pub note : Outcome → Bytes → Bytes → ℕ → ℕ → Proxy → Proxy
  note outcome method url bytes millis s =
      let after =
        record_request (record { counts = s.store.counts; log = s.log }) outcome method url bytes
          millis in
      let store = s.store in
      record s { store = record store { counts = after.counts }; log = after.log }

  abbrev pub stream_response : Reply lib → lib.HeaderMap → Bytes → Answer
  stream_response reply headers cache =
      streamed reply.status (insert_cache_header lib headers cache) reply.body

  -- What is sent upstream on a miss. The word `identity` parses as a value.
  unfoldable pub upstream_headers : lib.HeaderMap → lib.HeaderMap
  upstream_headers client_headers =
      lib.insert (lib.remove (sanitize lib client_headers) (codes "accept-encoding"))
        (codes "accept-encoding") (codes "identity")

  unfoldable pub put_encoded : Bytes → Entry.Result Bytes → Proxy → Outcome × Proxy
  put_encoded key (Entry.Result.ok encoded) s =
      (Outcome.stored, record s { store = Store.put net fs config key encoded s.store })
  put_encoded key (Entry.Result.err e) s = (Outcome.miss (codes "encode failed"), s)

  unfoldable pub store_response :
      ℕ → urls.Url → Bytes → ℕ → lib.HeaderMap → Bytes → Verdict → Proxy → Outcome × Proxy
  store_response now url key status headers body Verdict.ok s =
      put_encoded key
        (Entry.encode codec (Entry.new lib codec now (urls.to_string url) status headers body)) s
  store_response now url key status headers body (Verdict.err reject) s =
      (Outcome.miss (as_str reject), s)

  -- From the body of the reply on. `now` is the clock when the entry is made.
  unfoldable pub finish_fetch :
      ℕ → Bytes → urls.Url → Bytes → Reply lib → Result Bytes → Proxy → Result Answer × Proxy
  finish_fetch now method url key reply (err e) s = (err e, s)
  finish_fetch now method url key reply (ok body) s =
      let headers = sanitize lib reply.headers in
      let (outcome, s') =
        store_response now url key reply.status headers body
          (response_storable urls lib policy url reply.status headers (length body)) s in
      (
        ok (whole (build lib reply.status headers body (codes "MISS"))),
        note outcome method (urls.to_string url) (length body) reply.millis s',
      )

  unfoldable pub follow_fetch :
      ℕ → Bytes → urls.Url → Bytes → Result (Reply lib) → Proxy → Result Answer × Proxy
  follow_fetch now method url key (err e) s = (err e, s)
  follow_fetch now method url key (ok reply) s =
      let declared = or_zero reply.content_length in
      if ltb policy.max_size declared
      then (
        ok (stream_response reply (sanitize lib reply.headers) (codes "MISS")),
        note (Outcome.miss (as_str Reject.too_large)) method (urls.to_string url) declared
            reply.millis s,
      )
      else finish_fetch now method url key reply reply.body s

  unfoldable pub fetch_and_store :
      ℕ → Bytes → urls.Url → lib.HeaderMap → Bytes → Proxy → Result Answer × Proxy
  fetch_and_store now method url client_headers key s =
      let (reply, world) =
        up.fetch method (urls.to_string url) (upstream_headers client_headers) s.world in
      follow_fetch now method url key reply (record s { world = world })

  unfoldable pub follow_forward :
      Bytes → urls.Url → Reject → Result (Reply lib) → Proxy → Result Answer × Proxy
  follow_forward method url reject (err e) s = (err e, s)
  follow_forward method url reject (ok reply) s = (
    ok (stream_response reply (sanitize lib reply.headers) (codes "PASS")),
    note (Outcome.pass (as_str reject)) method (urls.to_string url) (or_zero reply.content_length)
        reply.millis s,
  )

  unfoldable pub forward :
      Bytes → urls.Url → lib.HeaderMap → Bytes → Reject → Proxy → Result Answer × Proxy
  forward method url client_headers body reject s =
      let (reply, world) =
        up.forward method (urls.to_string url) (sanitize lib client_headers) body s.world in
      follow_forward method url reject reply (record s { world = world })

  unfoldable pub answer_hit :
      ℕ
      → Bytes
      → urls.Url
      → lib.HeaderMap
      → Bytes
      → Entry.Result Entry
      → Proxy
      → Result Answer × Proxy
  answer_hit now method url client_headers key (Entry.Result.ok entry) s = (
    ok (whole (replay lib from_u16 entry)),
    note Outcome.hit method (urls.to_string url) (length entry.body) 0 s,
  )
  answer_hit now method url client_headers key (Entry.Result.err e) s =
      fetch_and_store now method url client_headers key s

  unfoldable pub answer_lookup :
      ℕ → Bytes → urls.Url → lib.HeaderMap → Bytes → Option Bytes → Proxy → Result Answer × Proxy
  answer_lookup now method url client_headers key (some raw) s =
      answer_hit now method url client_headers key (Entry.decode codec raw) s
  answer_lookup now method url client_headers key none s =
      fetch_and_store now method url client_headers key s

  unfoldable pub serve_eligible :
      ℕ → Bytes → urls.Url → lib.HeaderMap → Proxy → Result Answer × Proxy
  serve_eligible now method url client_headers s =
      let key = Policy.key urls digest policy url in
      let (found, store) = Store.get net fs config key s.store in
      answer_lookup now method url client_headers key found (record s { store = store })

  unfoldable pub follow_verdict :
      ℕ → Bytes → urls.Url → lib.HeaderMap → Bytes → Verdict → Proxy → Result Answer × Proxy
  follow_verdict now method url client_headers body (Verdict.err reject) s =
      forward method url client_headers body reject s
  follow_verdict now method url client_headers body Verdict.ok s =
      serve_eligible now method url client_headers s

  -- The body of the request is read first.
  unfoldable pub handle :
      ℕ → Bytes → urls.Url → lib.HeaderMap → Result Bytes → Proxy → Result Answer × Proxy
  handle now method url client_headers (err e) s = (err e, s)
  handle now method url client_headers (ok body) s =
      follow_verdict now method url client_headers body
        (request_eligible urls lib policy method url client_headers) s
