-- ===== src/Proxy/Dispatch.antt =====
-- src/proxy.rs: `dispatch`, `control`, `connect` and `absolute_url`: what becomes of a request that
-- arrives at the listener, or inside a tunnel that is decrypted.
use cicache.Prelude.{
  ℕ, Bool, true, false, [], ◌∷◌, ◌++◌, Option, none, some, ◌==◌, any, if◌then◌else◌,
}
use cicache.Text.Utf8.{Bytes, codes}
use cicache.Text.Compare.{same}
use cicache.Text.Number.{decimal}
use cicache.Stats.{Outcome}
use cicache.Gha.{Result, ok, err}
use cicache.Proxy.Serving.{Setup, Proxy, Answer, whole, note, handle}

-- What hyper says of a request's URI: its authority, a host and perhaps a port, its path, its path
-- with the query, and its text.
pub record Uri : Type 0 where
  pub authority : Option (Bytes × Option ℕ)
  pub path : Bytes
  pub path_and_query : Option Bytes
  pub text : Bytes

-- What `connect` leaves to a task of its own, once the connection is upgraded.
pub data Task : Type 0 where
  intercept : (host : Bytes) (port : ℕ) → Task
  tunnel : (host : Bytes) (port : ℕ) → Task

abbrev pub or_default {ℓ} : {A : Type ℓ} → A → Option A → A
or_default a none = a
or_default a (some b) = b

module _ (setup : Setup) where
  open setup use {urls, lib, codec, net, fs, up, mitm_ports}

  pub record Request : Type 0 where
    pub method : Bytes
    pub uri : Uri
    pub headers : lib.HeaderMap
    pub body : Result Bytes

  -- The answer, the task that is spawned, and the proxy after it.
  pub record Dispatched : Type 0 where
    pub answer : Answer setup
    pub spawned : Option Task
    pub proxy : Proxy setup

  abbrev pub answered : Answer setup → Proxy setup → Dispatched
  answered a s = record { answer = a; spawned = none; proxy = s }

  unfoldable pub text : ℕ → Bytes → Answer setup
  text status message = whole (record {
    status = status;
    headers = lib.append lib.empty (codes "content-type") (codes "text/plain");
    body = message ++ 10 ∷ [];
  })

  abbrev pub bad_request : Bytes → Answer setup
  bad_request message = text 400 message

  abbrev pub bad_gateway : Bytes → Answer setup
  bad_gateway message = text 502 message

  abbrev parsed : Bytes → Bytes → Result urls.Url
  parsed context at = elim (urls.parse at) [
    | none ↦ err (context ++ setup.parse_error at)
    | some url ↦ ok url
  ]

  unfoldable pub absolute_url : Uri → Option Bytes → Result urls.Url
  absolute_url uri (some authority) =
      parsed [] (codes "https://" ++ (authority ++ or_default (codes "/") uri.path_and_query))
  absolute_url uri none = parsed (codes "unparsable request URI: ") uri.text

  -- The endpoints of the wrapper steps.
  unfoldable pub control : Bytes → Proxy setup → Answer setup × Proxy setup
  control path s =
      if same path (codes "/__cicache/ping")
      then (text 200 (codes "ok"), s)
      else if same path (codes "/__cicache/stats")
      then (
        whole (record {
          status = 200;
          headers = lib.append lib.empty (codes "content-type") (codes "application/json");
          body = setup.summary_json s.store.counts;
        }),
        s,
      )
      else if same path (codes "/__cicache/shutdown")
      then (text 200 (codes "shutting down"), record s { shutdown = true })
      else (text 404 (codes "unknown control endpoint"), s)

  unfoldable pub connect : Option (Bytes × Option ℕ) → Proxy setup → Dispatched
  connect none s = answered (bad_request (codes "CONNECT without authority")) s
  connect (some (host, given)) s =
      let port = or_default 443 given in
      record {
        answer = whole (record { status = 200; headers = lib.empty; body = [] });
        spawned =
            some
              (if any (λ p. p == port) mitm_ports then intercept host port else tunnel host port);
        proxy = s;
      }

  -- What a task does to the log and the counters before it connects or serves, given whether the
  -- connection was upgraded.
  unfoldable pub begin_task : Bool → Task → Proxy setup → Proxy setup
  begin_task false task s = s
  begin_task true (intercept host port) s = s
  begin_task true (tunnel host port) s =
      note setup (Outcome.pass (codes "tunnelled port")) (codes "CONNECT")
        (host ++ (codes ":" ++ decimal port)) 0 0 s

  -- The authority that an intercepted tunnel's requests are dispatched with.
  unfoldable pub tunnel_authority : Bytes → ℕ → Bytes
  tunnel_authority host port = if port == 443 then host else host ++ (codes ":" ++ decimal port)

  unfoldable pub conclude : Bytes → Result (Answer setup) × Proxy setup → Dispatched
  conclude url (ok answer, s) = answered answer s
  conclude url (err message, s) =
      answered (bad_gateway message) (note setup (Outcome.error message) (codes "GET") url 0 0 s)

  -- `now` is the clock where an entry is made.
  unfoldable pub serve_url : ℕ → Request → Result urls.Url → Proxy setup → Dispatched
  serve_url now req (err message) s = answered (bad_request message) s
  serve_url now req (ok url) s =
      conclude (urls.to_string url) (handle setup now req.method url req.headers req.body s)

  unfoldable pub dispatch_direct : ℕ → Request → Proxy setup → Dispatched
  dispatch_direct now req s =
      if same req.method (codes "CONNECT")
      then connect req.uri.authority s
      else elim req.uri.authority [
        | none ↦ let (answer, s') = control req.uri.path s in answered answer s'
        | some authority ↦ serve_url now req (absolute_url req.uri none) s
      ]

  unfoldable pub dispatch : ℕ → Request → Option Bytes → Proxy setup → Dispatched
  dispatch now req none s = dispatch_direct now req s
  dispatch now req (some authority) s = serve_url now req (absolute_url req.uri (some authority)) s
