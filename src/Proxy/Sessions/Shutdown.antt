-- ===== src/Proxy/Sessions/Shutdown.antt =====
-- src/proxy.rs: what ends `serve`.
use cicache.Prelude.{
  ◌⊎◌, ℕ, ◌≡◌, ◌≢◌, refl, ◌∙◌, Bool, true, false, none, some, Bool-cases, inl, inr,
}
use cicache.Text.Utf8.{codes}
use mathlib.Core.Path.{subst}
use cicache.Proxy.Serving.{Setup, Proxy, note}
use cicache.Proxy.Dispatch.{
  Task, intercept, tunnel, Request, dispatch, begin_task, tunnel_authority,
}
use cicache.Proxy.Routing.{shutdown_iff}
use cicache.Proxy.Sessions.{
  Listener, received, begun, ServeStep, accepted, started, asked, closed, uploaded, progressed,
  Part, looks, sends, stores, notes, do_part, Serves, served, then_serves,
}

module _ (setup : Setup) where
  -- A request that tells a running proxy to shut down.
  abbrev pub Commands : Request setup → Type 0
  Commands req =
      (req.method ≢ codes "CONNECT")
      × (req.uri.authority ≡ none)
      × (req.uri.path ≡ codes "/__cicache/shutdown")

  begin_task-shutdown :
      (upgraded : Bool) (task : Task) (s : Proxy setup)
      → (begin_task setup upgraded task s).shutdown ≡ s.shutdown
  unfolding begin_task note
  begin_task-shutdown false task s = refl
  begin_task-shutdown true (intercept host port) s = refl
  begin_task-shutdown true (tunnel host port) s = refl

  do_part-shutdown :
      (part : Part setup) (s : Proxy setup) → (do_part setup part s).shutdown ≡ s.shutdown
  unfolding do_part note
  do_part-shutdown (looks key) s = refl
  do_part-shutdown (sends world) s = refl
  do_part-shutdown (stores key bytes) s = refl
  do_part-shutdown (notes outcome method url bytes millis) s = refl

  -- The proxy runs on after the step, or the step is the arrival of a request that commands it.
  ServeStep-Commands :
      (l m : Listener setup)
      → ServeStep setup l m
      → l.proxy.shutdown ≡ false
      → (m.proxy.shutdown ≡ false)
        ⊎ ((now : ℕ) × (req : Request setup) × Commands req
            × (m ≡ received setup l (dispatch setup now req none l.proxy)))
  unfolding begun received
  ServeStep-Commands l _ (accepted now req _) running =
      elim (Bool-cases (dispatch setup now req none l.proxy).proxy.shutdown) [
        | inl over ↦
            let (direct, method, origin, path) =
              (shutdown_iff setup now req none l.proxy running).0 over in
            inr (now, req, (method, origin, path), refl)
        | inr still ↦ inl still
      ]
  ServeStep-Commands l _ (started upgraded shaken task before after _ e) running =
      inl (begin_task-shutdown upgraded task l.proxy ∙ running)
  ServeStep-Commands l _ (asked now req host port before after _ e) running =
      elim (Bool-cases
        (dispatch setup now req (some (tunnel_authority setup host port)) l.proxy).proxy.shutdown) [
          | inl over ↦
              let (direct, method, origin, path) =
                (shutdown_iff setup now req _ l.proxy running).0 over in
              absurd (cc direct)
          | inr still ↦ inl still
        ]
  ServeStep-Commands l _ (closed task before after _ e) running = inl running
  ServeStep-Commands l _ (uploaded _ store step) running = inl running
  ServeStep-Commands l _ (progressed part _) running = inl (do_part-shutdown part l.proxy ∙ running)

  -- A proxy that runs and is told to shut down has been told so by a request that reached the
  -- listener itself, in origin form at `/__cicache/shutdown`: nothing that is asked over a tunnel, no
  -- task, no upload and no request that is cut short ends it.
  pub Serves-shutdown :
      (l n : Listener setup)
      → Serves setup l n
      → l.proxy.shutdown ≡ false
      → n.proxy.shutdown ≡ true
      → (m : Listener setup) × (now : ℕ) × (req : Request setup) × Serves setup l m
        × Commands req
        × Serves setup (received setup m (dispatch setup now req none m.proxy)) n
  Serves-shutdown l _ (served _) running over = absurd (cc (running, over))
  Serves-shutdown l n (then_serves _ k _ step rest) running over =
      elim (ServeStep-Commands l k step running) [
        | inl still ↦
            let (m, now, req, before, commands, after) = Serves-shutdown k n rest still over in
            (m, now, req, then_serves l k m step before, commands, after)
        | inr (now, req, commands, e) ↦
            (l, now, req, served l, commands, subst (λ t. Serves setup t n) e rest)
      ]
