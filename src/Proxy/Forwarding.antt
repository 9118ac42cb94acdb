-- ===== src/Proxy/Forwarding.antt =====
-- What a request that may not be served from the cache leaves alone.
use cicache.Prelude.{ℕ, ◌≡◌, refl}
use cicache.Text.Utf8.{Bytes}
use cicache.Policy.{Reject, Verdict, request_eligible}
use cicache.Gha.{Result, ok, err}
use cicache.Store.{Store}
use cicache.Proxy.Serving.{
  Setup, Reply, Proxy, note, follow_forward, forward, follow_verdict, handle,
}

module _ (setup : Setup) where
  open setup use {urls, lib, codec, net, fs, up, digest, from_u16, policy, config}

  -- Two stores that differ in their counters at most.
  abbrev pub SameButCounts : Store net fs → Store net fs → Type 0
  SameButCounts t s = record t { counts = s.counts } ≡ s

  follow_forward-keeps :
      (method : Bytes) (url : urls.Url) (reject : Reject) (r : Result (Reply lib)) (s : Proxy setup)
      → SameButCounts (follow_forward setup method url reject r s).1.store s.store
  unfolding follow_forward note
  follow_forward-keeps method url reject (err e) s = refl
  follow_forward-keeps method url reject (ok reply) s = refl

  -- A request that may not be served from the cache changes nothing of the store but the counters,
  -- whatever the answer: no file, no set, no queue and no call of the cache service.
  pub handle-refused :
      (now : ℕ) (method : Bytes) (url : urls.Url) (client_headers : lib.HeaderMap) (body : Bytes)
      (reject : Reject) (s : Proxy setup)
      → request_eligible urls lib policy method url client_headers ≡ Verdict.err reject
      → SameButCounts (handle setup now method url client_headers (ok body) s).1.store s.store
  unfolding handle follow_verdict forward
  handle-refused now method url client_headers body reject s refused =
      rw refused (follow_forward-keeps method url reject _ _)
