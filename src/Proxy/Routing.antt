-- ===== src/Proxy/Routing.antt =====
-- Which requests are served, which command the proxy, and which open a tunnel.
use cicache.Prelude.{
  ℕ, ◌≡◌, ◌≢◌, ◌↔◌, refl, sym, ap, ◌∙◌, true, false, Option, none, some, arith, if◌then◌else◌,
  Bool-cases, inl, inr, Option-cases, ◌==◌, any,
}
use cicache.Text.Utf8.{Bytes, codes}
use cicache.Text.Compare.{same, same_iff}
use cicache.Gha.{Result, ok, err}
use cicache.Proxy.Serving.{Setup, Proxy, Answer}
use cicache.Proxy.Dispatch.{
  intercept, or_default, Request, absolute_url, control, connect, conclude, serve_url,
  dispatch_direct, dispatch,
}
use cicache.Proxy.Recording.{Recorded, Leaves, handle-Leaves, note-Recorded}

module _ (setup : Setup) where
  open setup use {urls, lib, mitm_ports}

  -- What a request is to be served for: the URL, or the reason that there is none; nothing for one
  -- that commands the proxy itself.
  unfoldable pub target : Request setup → Option Bytes → Option (Result urls.Url)
  target req (some authority) = some (absolute_url setup req.uri (some authority))
  target req none = if same req.method (codes "CONNECT") then none else elim req.uri.authority [
    | none ↦ none
    | some authority ↦ some (absolute_url setup req.uri none)
  ]

  -- A request for a URL is recorded once; any other leaves the log and the counter of requests.
  abbrev pub Accounts : Option (Result urls.Url) → Proxy setup → Proxy setup → Type 0
  Accounts (some (ok url)) s s' = Recorded setup (urls.to_string url) s s'
  Accounts _ s s' = (s'.log ≡ s.log) × (s'.store.counts.requests ≡ s.store.counts.requests)

  conclude-Recorded :
      (url : Bytes) (r : Result (Answer setup) × Proxy setup) (s : Proxy setup)
      → Leaves setup url s r
      → Recorded setup url s (conclude setup url r).proxy
  unfolding conclude
  conclude-Recorded url (ok answer, s') s h = h
  conclude-Recorded url (err message, s') s h = note-Recorded setup _ _ url 0 0 s s' h

  serve_url-Accounts :
      (now : ℕ) (req : Request setup) (url : Result urls.Url) (s : Proxy setup)
      → Accounts (some url) s (serve_url setup now req url s).proxy
  unfolding serve_url
  serve_url-Accounts now req (err message) s = (refl, refl)
  serve_url-Accounts now req (ok url) s =
      conclude-Recorded (urls.to_string url) _ s
        (handle-Leaves setup now req.method url req.headers req.body s)

  pub control-keeps :
      (path : Bytes) (s : Proxy setup)
      → ((control setup path s).1.log ≡ s.log) × ((control setup path s).1.store ≡ s.store)
  unfolding control
  control-keeps path s = ground arith

  pub connect-keeps :
      (authority : Option (Bytes × Option ℕ)) (s : Proxy setup)
      → (connect setup authority s).proxy ≡ s
  unfolding connect
  connect-keeps none s = refl
  connect-keeps (some (host, port)) s = refl

  -- A request that is to be served for a URL, whether that succeeds or fails, is recorded once: by one
  -- count, and by one write to the log, where it is open, of a line that names the URL, which may fail or
  -- be cut; every other request leaves both as they were.
  pub dispatch-Accounts :
      (now : ℕ) (req : Request setup) (tunnelled : Option Bytes) (s : Proxy setup)
      → Accounts (target req tunnelled) s (dispatch setup now req tunnelled s).proxy
  unfolding dispatch target dispatch_direct
  dispatch-Accounts now req (some authority) s = serve_url-Accounts now req _ s
  dispatch-Accounts now req none s = elim (Bool-cases (same req.method (codes "CONNECT"))) [
    | inl command ↦ rw (command, connect-keeps req.uri.authority s) (refl, refl)
    | inr other ↦ elim (Option-cases req.uri.authority) [
      | inl origin_form ↦
          rw (other, origin_form)
            (let (log, store) = control-keeps req.uri.path s in
              (log, ap (λ t. t.counts.requests) store))
      | inr (authority, absolute) ↦ rw (other, absolute) (serve_url-Accounts now req _ s)
    ]
  ]

  Leaves-shutdown :
      (url : Bytes) (r : Result (Answer setup) × Proxy setup) (s : Proxy setup)
      → Leaves setup url s r
      → (conclude setup url r).proxy.shutdown ≡ s.shutdown
  Leaves-shutdown url r s h = (conclude-Recorded url r s h).shutdown

  serve_url-shutdown :
      (now : ℕ) (req : Request setup) (url : Result urls.Url) (s : Proxy setup)
      → (serve_url setup now req url s).proxy.shutdown ≡ s.shutdown
  unfolding serve_url
  serve_url-shutdown now req (err message) s = refl
  serve_url-shutdown now req (ok url) s =
      Leaves-shutdown (urls.to_string url) _ s
        (handle-Leaves setup now req.method url req.headers req.body s)

  pub serve_url-spawned :
      (now : ℕ) (req : Request setup) (url : Result urls.Url) (s : Proxy setup)
      → (serve_url setup now req url s).spawned ≡ none
  unfolding serve_url conclude
  serve_url-spawned now req (err message) s = refl
  serve_url-spawned now req (ok url) s = grind arith

  pub dispatch_direct-spawned :
      (now : ℕ) (req : Request setup) (s : Proxy setup)
      → same req.method (codes "CONNECT") ≡ false
      → (dispatch_direct setup now req s).spawned ≡ none
  unfolding dispatch_direct
  dispatch_direct-spawned now req s other = elim (Option-cases req.uri.authority) [
    | inl origin_form ↦ rw (other, origin_form) refl
    | inr (authority, absolute) ↦ rw (other, absolute) (serve_url-spawned now req _ s)
  ]

  control_shutdown_iff :
      (path : Bytes) (s : Proxy setup)
      → s.shutdown ≡ false
      → ((control setup path s).1.shutdown ≡ true) ↔ (path ≡ codes "/__cicache/shutdown")
  unfolding control
  control_shutdown_iff path s running = ground (
    arith,
    running,
    same_iff path (codes "/__cicache/shutdown"),
    same_iff path (codes "/__cicache/ping"),
    same_iff path (codes "/__cicache/stats"),
  )

  -- A running proxy is told to shut down by exactly the requests that reach the listener itself,
  -- outside every tunnel, in origin form, at the path `/__cicache/shutdown`, by any method but
  -- CONNECT.
  pub shutdown_iff :
      (now : ℕ) (req : Request setup) (tunnelled : Option Bytes) (s : Proxy setup)
      → s.shutdown ≡ false
      → ((dispatch setup now req tunnelled s).proxy.shutdown ≡ true) ↔ (
          (tunnelled ≡ none)
          × (req.method ≢ codes "CONNECT")
          × (req.uri.authority ≡ none)
          × (req.uri.path ≡ codes "/__cicache/shutdown"))
  unfolding dispatch dispatch_direct
  shutdown_iff now req (some authority) s running = (
    λ h. absurd (
        ground (
          arith,
          h,
          running,
          serve_url-shutdown now req (absolute_url setup req.uri (some authority)) s,
        )),
    λ (direct, method, origin, path). absurd (cc direct),
  )
  shutdown_iff now req none s running = elim (Bool-cases (same req.method (codes "CONNECT"))) [
    | inl command ↦
        let kept : (dispatch_direct setup now req s).proxy.shutdown ≡ s.shutdown =
          rw (command, connect-keeps req.uri.authority s) refl in
        (
          λ h. absurd (cc (h, kept, running)),
          λ (direct, method, origin, path). absurd (method (is_connect.0 command)),
        )
    | inr other ↦ elim (Option-cases req.uri.authority) [
      | inl origin_form ↦
          let controlled : (dispatch_direct setup now req s).proxy.shutdown
              ≡ (control setup req.uri.path s).1.shutdown =
            rw (other, origin_form) refl in
          let (to, from) = control_shutdown_iff req.uri.path s running in
          (
            λ h. (refl, λ e. cc (other, is_connect.1 e), origin_form, to (sym controlled ∙ h)),
            λ (direct, method, origin, path). controlled ∙ from path,
          )
      | inr (authority, absolute) ↦
          let kept : (dispatch_direct setup now req s).proxy.shutdown ≡ s.shutdown =
            rw (other, absolute) (serve_url-shutdown now req _ s) in
          (
            λ h. absurd (cc (h, kept, running)),
            λ (direct, method, origin, path). absurd (cc (absolute, origin)),
          )
    ]
  ]
    where
      is_connect : (same req.method (codes "CONNECT") ≡ true) ↔ (req.method ≡ codes "CONNECT")
      is_connect = same_iff req.method (codes "CONNECT")

  connect_intercept_iff :
      (authority : Option (Bytes × Option ℕ)) (host : Bytes) (port : ℕ) (s : Proxy setup)
      → ((connect setup authority s).spawned ≡ some (intercept host port)) ↔ (
          (given : Option ℕ) × (authority ≡ some (host, given))
          × (or_default 443 given ≡ port)
          × (any (λ p. p == port) mitm_ports ≡ true))
  unfolding connect
  connect_intercept_iff none host port s = (λ h. cc h, λ (given, a, p, m). absurd (cc a))
  connect_intercept_iff (some (h, given)) host port s =
      elim (Bool-cases (any (λ p. p == or_default 443 given) mitm_ports)) [
        | inl listed ↦ rw listed (
          λ e.
              let same_host : h ≡ host = cc e in
              let same_port : or_default 443 given ≡ port = cc e in
              (given, ap (λ t. some (t, given)) same_host, same_port, rw same_port at listed),
          λ (g, a, p, m). ground (arith, a, p),
        )
        | inr unlisted ↦ rw unlisted (
          λ e. absurd (cc e),
          λ (g, a, p, m).
              let same_given : given ≡ g = cc a in absurd (cc (rw (same_given, p) at unlisted, m)),
        )
      ]

  -- The tunnels that are decrypted are exactly those of the CONNECT requests that reach the listener
  -- itself and ask for one of the configured ports, 443 where none is given: whatever the host, and
  -- so also where the policy bypasses it.
  pub intercept_iff :
      (now : ℕ) (req : Request setup) (tunnelled : Option Bytes) (s : Proxy setup) (host : Bytes)
      (port : ℕ)
      → ((dispatch setup now req tunnelled s).spawned ≡ some (intercept host port)) ↔ (
          (tunnelled ≡ none)
          × (req.method ≡ codes "CONNECT")
          × (given : Option ℕ) × (req.uri.authority ≡ some (host, given))
          × (or_default 443 given ≡ port)
          × (any (λ p. p == port) mitm_ports ≡ true))
  unfolding dispatch dispatch_direct
  intercept_iff now req (some authority) s host port = (
    λ h. absurd (cc (h, serve_url-spawned now req (absolute_url setup req.uri (some authority)) s)),
    λ (direct, method, given, a, p, m). absurd (cc direct),
  )
  intercept_iff now req none s host port = elim (Bool-cases (same req.method (codes "CONNECT"))) [
    | inl command ↦
        let (to, from) = connect_intercept_iff req.uri.authority host port s in
        rw command (
          λ h.
              let (given, a, p, m) = to h in
              (refl, (same_iff req.method (codes "CONNECT")).0 command, given, a, p, m),
          λ (direct, method, given, a, p, m). from (given, a, p, m),
        )
    | inr other ↦ (
      λ h. absurd (cc (dispatch_direct-spawned now req s other, h)),
      λ (direct, method, given, a, p, m).
          absurd (cc (other, (same_iff req.method (codes "CONNECT")).1 method)),
    )
  ]
