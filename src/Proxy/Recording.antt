-- ===== src/Proxy/Recording.antt =====
-- That `handle` records a request that it answers once, and one that fails not at all.
use cicache.Prelude.{
  ℕ, ◌≡◌, refl, ap, ◌∙◌, Option, none, some, arith, length, ltb, Bool-cases, inl, inr, Option-cases,
}
use cicache.Text.Utf8.{Bytes}
use cicache.Entry
use cicache.Entry.{Entry}
use cicache.Policy.{Reject, Verdict}
use cicache.Stats.{
  Outcome, hit, stored, miss, pass, error, Line, add, write_line, record_request, count, Summary,
  label_of, is_stored,
}
use cicache.Gha
use cicache.Gha.{Net, Result, ok, err, State}
use cicache.Store
use cicache.Store.{Store, get_remote, keep_fetched, file_away}
use cicache.Proxy.Serving.{
  Setup, Proxy, Answer, Reply, or_zero, note, put_encoded, store_response, finish_fetch,
  follow_fetch, fetch_and_store, follow_forward, forward, answer_hit, answer_lookup, serve_eligible,
  follow_verdict, handle,
}

count-requests :
    (c : Summary) (outcome : Outcome) (bytes millis : ℕ)
    → (count c outcome bytes millis).requests ≡ add c.requests 1
unfolding count
count-requests c hit bytes millis = refl
count-requests c stored bytes millis = refl
count-requests c (miss reason) bytes millis = refl
count-requests c (pass reason) bytes millis = refl
count-requests c (error reason) bytes millis = refl

module _ (setup : Setup) where
  open setup use {urls, lib, codec, net, fs, up, config}

  -- Nothing was recorded, and nothing was said of the end.
  pub record Silent (s s' : Proxy setup) : Type 0 where
    pub log : s'.log ≡ s.log
    pub requests : s'.store.counts.requests ≡ s.store.counts.requests
    pub shutdown : s'.shutdown ≡ s.shutdown

  -- One request for the URL was recorded: a write of a line that names it to the log, where that is
  -- open, which may fail, and a count.
  pub record Recorded (url : Bytes) (s s' : Proxy setup) : Type 0 where
    pub line : Line
    pub about : line.url ≡ url
    pub log : s'.log ≡ write_line s.log line
    pub requests : s'.store.counts.requests ≡ add s.store.counts.requests 1
    pub shutdown : s'.shutdown ≡ s.shutdown

  -- What a call that may fail leaves: a request is recorded exactly if it is answered.
  abbrev pub Leaves : Bytes → Proxy setup → Result (Answer setup) × Proxy setup → Type 0
  Leaves url s (ok answer, s') = Recorded url s s'
  Leaves url s (err message, s') = Silent s s'

  pub note-Recorded :
      (outcome : Outcome) (method url : Bytes) (bytes millis : ℕ) (s s' : Proxy setup)
      → Silent s s'
      → Recorded url s (note setup outcome method url bytes millis s')
  unfolding note record_request
  note-Recorded outcome method url bytes millis s s' q = record {
    line = line;
    about = refl;
    log = ap (λ l. write_line l line) q.log;
    requests = count-requests s'.store.counts outcome bytes millis ∙ ap (λ n. add n 1) q.requests;
    shutdown = q.shutdown;
  }
    where
      line : Line
      line = record {
        label = label_of outcome;
        bytes = bytes;
        millis = millis;
        method = method;
        url = url;
        was_stored = is_stored outcome;
      }

  abbrev pub silence : (s : Proxy setup) → Silent s s
  silence s = record { log = refl; requests = refl; shutdown = refl }

  pub put-counts :
      (key bytes : Bytes) (s : Store net fs)
      → (Store.put net fs config key bytes s).counts ≡ s.counts
  unfolding Store.put file_away
  put-counts key bytes s = ground arith

  keep_fetched-counts :
      (key : Bytes) (r : Result (Option Bytes) × State net) (s : Store net fs)
      → (keep_fetched net fs key r s).1.counts ≡ s.counts
  unfolding keep_fetched
  keep_fetched-counts key (ok (some bytes), r) s = refl
  keep_fetched-counts key (ok none, r) s = refl
  keep_fetched-counts key (err e, r) s = refl

  pub get-counts :
      (key : Bytes) (s : Store net fs) → (Store.get net fs config key s).1.counts ≡ s.counts
  unfolding Store.get get_remote
  get-counts key s = elim (Option-cases config.gha) [
    | inl local ↦ ground (arith, local)
    | inr (gha, client) ↦
        ground (arith, client, keep_fetched-counts key (Gha.get net gha key s.remote) s)
  ]

  abbrev Quiet : Proxy setup → Outcome × Proxy setup → Type 0
  Quiet s r = Silent s r.1

  put_encoded-Silent :
      (key : Bytes) (r : Entry.Result Bytes) (s s' : Proxy setup)
      → Silent s s'
      → Quiet s (put_encoded setup key r s')
  unfolding put_encoded
  put_encoded-Silent key (Entry.Result.ok encoded) s s' q = record {
    log = q.log;
    requests = ap (λ c. c.requests) (put-counts key encoded s'.store) ∙ q.requests;
    shutdown = q.shutdown;
  }
  put_encoded-Silent key (Entry.Result.err e) s s' q = q

  store_response-Silent :
      (now : ℕ) (url : urls.Url) (key : Bytes) (status : ℕ) (headers : lib.HeaderMap) (body : Bytes)
      (v : Verdict) (s s' : Proxy setup)
      → Silent s s'
      → Quiet s (store_response setup now url key status headers body v s')
  unfolding store_response
  store_response-Silent now url key status headers body Verdict.ok s s' q =
      put_encoded-Silent key _ s s' q
  store_response-Silent now url key status headers body (Verdict.err reject) s s' q = q

  finish_fetch-Leaves :
      (now : ℕ) (method : Bytes) (url : urls.Url) (key : Bytes) (reply : Reply lib)
      (body : Result Bytes) (s s' : Proxy setup)
      → Silent s s'
      → Leaves (urls.to_string url) s (finish_fetch setup now method url key reply body s')
  unfolding finish_fetch
  finish_fetch-Leaves now method url key reply (err e) s s' q = q
  finish_fetch-Leaves now method url key reply (ok body) s s' q =
      note-Recorded _ method (urls.to_string url) (length body) reply.millis s _
        (store_response-Silent now url key reply.status _ body _ s s' q)

  follow_fetch-Leaves :
      (now : ℕ) (method : Bytes) (url : urls.Url) (key : Bytes) (r : Result (Reply lib))
      (s s' : Proxy setup)
      → Silent s s'
      → Leaves (urls.to_string url) s (follow_fetch setup now method url key r s')
  unfolding follow_fetch
  follow_fetch-Leaves now method url key (err e) s s' q = q
  follow_fetch-Leaves now method url key (ok reply) s s' q =
      elim (Bool-cases (ltb setup.policy.max_size (or_zero reply.content_length))) [
        | inl large ↦ rw large (note-Recorded _ method _ _ _ s s' q)
        | inr small ↦ rw small (finish_fetch-Leaves now method url key reply reply.body s s' q)
      ]

  follow_forward-Leaves :
      (method : Bytes) (url : urls.Url) (reject : Reject) (r : Result (Reply lib))
      (s s' : Proxy setup)
      → Silent s s'
      → Leaves (urls.to_string url) s (follow_forward setup method url reject r s')
  unfolding follow_forward
  follow_forward-Leaves method url reject (err e) s s' q = q
  follow_forward-Leaves method url reject (ok reply) s s' q = note-Recorded _ method _ _ _ s s' q

  -- The world of the clients is no part of what is recorded.
  fetch_and_store-Leaves :
      (now : ℕ) (method : Bytes) (url : urls.Url) (client_headers : lib.HeaderMap) (key : Bytes)
      (s s' : Proxy setup)
      → Silent s s'
      → Leaves (urls.to_string url) s (fetch_and_store setup now method url client_headers key s')
  unfolding fetch_and_store
  fetch_and_store-Leaves now method url client_headers key s s' q =
      follow_fetch-Leaves now method url key _ s _
        (record { log = q.log; requests = q.requests; shutdown = q.shutdown })

  answer_hit-Leaves :
      (now : ℕ) (method : Bytes) (url : urls.Url) (client_headers : lib.HeaderMap) (key : Bytes)
      (r : Entry.Result Entry) (s s' : Proxy setup)
      → Silent s s'
      → Leaves (urls.to_string url) s (answer_hit setup now method url client_headers key r s')
  unfolding answer_hit
  answer_hit-Leaves now method url client_headers key (Entry.Result.ok entry) s s' q =
      note-Recorded _ method _ _ _ s s' q
  answer_hit-Leaves now method url client_headers key (Entry.Result.err e) s s' q =
      fetch_and_store-Leaves now method url client_headers key s s' q

  answer_lookup-Leaves :
      (now : ℕ) (method : Bytes) (url : urls.Url) (client_headers : lib.HeaderMap) (key : Bytes)
      (found : Option Bytes) (s s' : Proxy setup)
      → Silent s s'
      → Leaves
          (urls.to_string url)
          s
          (answer_lookup setup now method url client_headers key found s')
  unfolding answer_lookup
  answer_lookup-Leaves now method url client_headers key (some raw) s s' q =
      answer_hit-Leaves now method url client_headers key _ s s' q
  answer_lookup-Leaves now method url client_headers key none s s' q =
      fetch_and_store-Leaves now method url client_headers key s s' q

  follow_verdict-Leaves :
      (now : ℕ) (method : Bytes) (url : urls.Url) (client_headers : lib.HeaderMap) (body : Bytes)
      (v : Verdict) (s : Proxy setup)
      → Leaves (urls.to_string url) s (follow_verdict setup now method url client_headers body v s)
  unfolding follow_verdict serve_eligible forward
  follow_verdict-Leaves now method url client_headers body (Verdict.err reject) s =
      follow_forward-Leaves method url reject _ s _
        (record { log = refl; requests = refl; shutdown = refl })
  follow_verdict-Leaves now method url client_headers body Verdict.ok s =
      answer_lookup-Leaves now method url client_headers _ _ s _ (record {
        log = refl;
        requests = ap (λ c. c.requests) (get-counts _ s.store);
        shutdown = refl;
      })

  pub handle-Leaves :
      (now : ℕ) (method : Bytes) (url : urls.Url) (client_headers : lib.HeaderMap)
      (body : Result Bytes) (s : Proxy setup)
      → Leaves (urls.to_string url) s (handle setup now method url client_headers body s)
  unfolding handle
  handle-Leaves now method url client_headers (err e) s = silence s
  handle-Leaves now method url client_headers (ok body) s =
      follow_verdict-Leaves now method url client_headers body _ s
