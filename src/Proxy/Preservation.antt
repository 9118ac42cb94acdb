-- ===== src/Proxy/Preservation.antt =====
-- A property of the store that lookups, stores, counting and uploads preserve holds throughout a
-- session of the proxy.
use cicache.Prelude.{
  ℕ, sym, Bool, true, false, Option, none, some, ltb, Bool-cases, Option-cases, inl, inr,
}
use mathlib.Core.Path.{subst}
use cicache.Text.Utf8.{Bytes, codes}
use cicache.Text.Compare.{same}
use cicache.Entry
use cicache.Entry.{Entry}
use cicache.Policy.{Reject, Verdict}
use cicache.Stats.{Outcome, Summary}
use cicache.Gha.{Result, ok, err}
use cicache.Store
use cicache.Store.{Store}
use cicache.Store.Uploads.{Step}
use cicache.Proxy.Serving.{
  Setup, Proxy, Answer, Reply, or_zero, note, put_encoded, store_response, finish_fetch,
  follow_fetch, fetch_and_store, follow_forward, forward, answer_hit, answer_lookup, serve_eligible,
  follow_verdict, handle,
}
use cicache.Proxy.Dispatch.{
  Task, intercept, tunnel, Request, dispatch, dispatch_direct, serve_url, conclude, begin_task,
}
use cicache.Proxy.Routing.{connect-keeps, control-keeps}
use cicache.Proxy.Sessions.{
  Listener, received, begun, ServeStep, accepted, started, asked, closed, uploaded, progressed,
  Part, looks, sends, stores, notes, do_part, Serves, served, then_serves,
}

-- What a property has to be shown for.
pub record IsStable (setup : Setup) (P : Store setup.net setup.fs → Type 0) : Type 0 where
  pub on_get :
      (key : Bytes) (s : Store setup.net setup.fs)
      → P s
      → P (Store.get setup.net setup.fs setup.config key s).1
  pub on_put :
      (key bytes : Bytes) (s : Store setup.net setup.fs)
      → P s
      → P (Store.put setup.net setup.fs setup.config key bytes s)
  pub on_count : (c : Summary) (s : Store setup.net setup.fs) → P s → P (record s { counts = c })
  pub on_step :
      (s s' : Store setup.net setup.fs) → Step setup.net setup.fs setup.config s s' → P s → P s'

module _ (setup : Setup) (P : Store setup.net setup.fs → Type 0) (stable : IsStable setup P) where
  open setup use {urls, lib}

  put_encoded-keeps :
      (key : Bytes) (r : Entry.Result Bytes) (s : Proxy setup)
      → P s.store
      → P (put_encoded setup key r s).1.store
  unfolding put_encoded
  put_encoded-keeps key (Entry.Result.ok encoded) s p = stable.on_put key encoded s.store p
  put_encoded-keeps key (Entry.Result.err e) s p = p

  store_response-keeps :
      (now : ℕ) (url : urls.Url) (key : Bytes) (status : ℕ) (headers : lib.HeaderMap) (body : Bytes)
      (v : Verdict) (s : Proxy setup)
      → P s.store
      → P (store_response setup now url key status headers body v s).1.store
  unfolding store_response
  store_response-keeps now url key status headers body Verdict.ok s p = put_encoded-keeps key _ s p
  store_response-keeps now url key status headers body (Verdict.err reject) s p = p

  note-keeps :
      (outcome : Outcome) (method url : Bytes) (bytes millis : ℕ) (s : Proxy setup)
      → P s.store
      → P (note setup outcome method url bytes millis s).store
  unfolding note
  note-keeps outcome method url bytes millis s p = stable.on_count _ s.store p

  finish_fetch-keeps :
      (now : ℕ) (method : Bytes) (url : urls.Url) (key : Bytes) (reply : Reply lib)
      (body : Result Bytes) (s : Proxy setup)
      → P s.store
      → P (finish_fetch setup now method url key reply body s).1.store
  unfolding finish_fetch
  finish_fetch-keeps now method url key reply (err e) s p = p
  finish_fetch-keeps now method url key reply (ok body) s p =
      note-keeps _ method _ _ _ _ (store_response-keeps now url key reply.status _ body _ s p)

  follow_fetch-keeps :
      (now : ℕ) (method : Bytes) (url : urls.Url) (key : Bytes) (r : Result (Reply lib))
      (s : Proxy setup)
      → P s.store
      → P (follow_fetch setup now method url key r s).1.store
  unfolding follow_fetch
  follow_fetch-keeps now method url key (err e) s p = p
  follow_fetch-keeps now method url key (ok reply) s p =
      elim (Bool-cases (ltb setup.policy.max_size (or_zero reply.content_length))) [
        | inl large ↦ rw large (note-keeps _ method _ _ _ s p)
        | inr small ↦ rw small (finish_fetch-keeps now method url key reply reply.body s p)
      ]

  answer_lookup-keeps :
      (now : ℕ) (method : Bytes) (url : urls.Url) (client_headers : lib.HeaderMap) (key : Bytes)
      (found : Option Bytes) (s : Proxy setup)
      → P s.store
      → P (answer_lookup setup now method url client_headers key found s).1.store
  unfolding answer_lookup fetch_and_store
  answer_lookup-keeps now method url client_headers key none s p =
      follow_fetch-keeps now method url key _ _ p
  answer_lookup-keeps now method url client_headers key (some raw) s p =
      hit (Entry.decode setup.codec raw)
    where
      hit :
          (r : Entry.Result Entry)
          → P (answer_hit setup now method url client_headers key r s).1.store
      hit (Entry.Result.ok entry) = unfold answer_hit in note-keeps _ method _ _ _ s p
      hit (Entry.Result.err e) =
          unfold answer_hit fetch_and_store in follow_fetch-keeps now method url key _ _ p

  follow_forward-keeps :
      (method : Bytes) (url : urls.Url) (reject : Reject) (r : Result (Reply lib)) (s : Proxy setup)
      → P s.store
      → P (follow_forward setup method url reject r s).1.store
  unfolding follow_forward
  follow_forward-keeps method url reject (err e) s p = p
  follow_forward-keeps method url reject (ok reply) s p = note-keeps _ method _ _ _ s p

  follow_verdict-keeps :
      (now : ℕ) (method : Bytes) (url : urls.Url) (client_headers : lib.HeaderMap) (body : Bytes)
      (v : Verdict) (s : Proxy setup)
      → P s.store
      → P (follow_verdict setup now method url client_headers body v s).1.store
  unfolding follow_verdict serve_eligible forward
  follow_verdict-keeps now method url client_headers body (Verdict.err reject) s p =
      follow_forward-keeps method url reject _ _ p
  follow_verdict-keeps now method url client_headers body Verdict.ok s p =
      answer_lookup-keeps now method url client_headers _ _ _ (stable.on_get _ s.store p)

  pub handle-keeps :
      (now : ℕ) (method : Bytes) (url : urls.Url) (client_headers : lib.HeaderMap)
      (body : Result Bytes) (s : Proxy setup)
      → P s.store
      → P (handle setup now method url client_headers body s).1.store
  unfolding handle
  handle-keeps now method url client_headers (err e) s p = p
  handle-keeps now method url client_headers (ok body) s p =
      follow_verdict-keeps now method url client_headers body _ s p

  conclude-keeps :
      (url : Bytes) (r : Result (Answer setup) × Proxy setup)
      → P r.1.store
      → P (conclude setup url r).proxy.store
  unfolding conclude
  conclude-keeps url (ok answer, s) p = p
  conclude-keeps url (err message, s) p = note-keeps _ _ url 0 0 s p

  serve_url-keeps :
      (now : ℕ) (req : Request setup) (url : Result urls.Url) (s : Proxy setup)
      → P s.store
      → P (serve_url setup now req url s).proxy.store
  unfolding serve_url
  serve_url-keeps now req (err message) s p = p
  serve_url-keeps now req (ok url) s p =
      conclude-keeps _ _ (handle-keeps now req.method url req.headers req.body s p)

  dispatch-keeps :
      (now : ℕ) (req : Request setup) (tunnelled : Option Bytes) (s : Proxy setup)
      → P s.store
      → P (dispatch setup now req tunnelled s).proxy.store
  unfolding dispatch dispatch_direct
  dispatch-keeps now req (some authority) s p = serve_url-keeps now req _ s p
  dispatch-keeps now req none s p = elim (Bool-cases (same req.method (codes "CONNECT"))) [
    | inl command ↦
        rw command (subst (λ t. P t.store) (sym (connect-keeps setup req.uri.authority s)) p)
    | inr other ↦ elim (Option-cases req.uri.authority) [
      | inl origin_form ↦
          rw (other, origin_form) (subst P (sym (control-keeps setup req.uri.path s).1) p)
      | inr (authority, absolute) ↦ rw (other, absolute) (serve_url-keeps now req _ s p)
    ]
  ]

  begin_task-keeps :
      (upgraded : Bool) (task : Task) (s : Proxy setup)
      → P s.store
      → P (begin_task setup upgraded task s).store
  unfolding begin_task
  begin_task-keeps false task s p = p
  begin_task-keeps true (intercept host port) s p = p
  begin_task-keeps true (tunnel host port) s p = note-keeps _ _ _ 0 0 s p

  do_part-keeps : (part : Part setup) (s : Proxy setup) → P s.store → P (do_part setup part s).store
  unfolding do_part
  do_part-keeps (looks key) s p = stable.on_get key s.store p
  do_part-keeps (sends world) s p = p
  do_part-keeps (stores key bytes) s p = stable.on_put key bytes s.store p
  do_part-keeps (notes outcome method url bytes millis) s p =
      note-keeps outcome method url bytes millis s p

  ServeStep-keeps : (l m : Listener setup) → ServeStep setup l m → P l.proxy.store → P m.proxy.store
  unfolding received begun
  ServeStep-keeps l _ (accepted now req _) p = dispatch-keeps now req none l.proxy p
  ServeStep-keeps l _ (started upgraded shaken task before after _ e) p =
      begin_task-keeps upgraded task l.proxy p
  ServeStep-keeps l _ (asked now req host port before after _ e) p =
      dispatch-keeps now req _ l.proxy p
  ServeStep-keeps l _ (closed task before after _ e) p = p
  ServeStep-keeps l _ (uploaded _ store step) p = stable.on_step l.proxy.store store step p
  ServeStep-keeps l _ (progressed part _) p = do_part-keeps part l.proxy p

  pub Serves-keeps : (l m : Listener setup) → Serves setup l m → P l.proxy.store → P m.proxy.store
  Serves-keeps l _ (served _) p = p
  Serves-keeps l n (then_serves _ m _ step rest) p =
      Serves-keeps m n rest (ServeStep-keeps l m step p)
