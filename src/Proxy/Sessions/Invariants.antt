-- ===== src/Proxy/Sessions/Invariants.antt =====
-- What holds however the requests and tasks of a proxy come.
use cicache.Prelude.{
  ℕ, ◌%◌, ◌^◌, ◌≡◌, refl, sym, ap, ◌∙◌, Bool, true, false, ◌&&◌, Option, none, some, List, [], ◌∷◌,
  ◌++◌, length, length-append, arith, ◌==◌, any, Bool-cases, Option-cases, inl, inr,
}
use cicache.Text.Utf8.{Bytes, codes}
use mathlib.Core.Path.{subst}
use cicache.Text.Compare.{same}
use cicache.Gha.{State, Result, ok, err}
use cicache.Stats.{record_upload, LogFile, Piece, piece_of, write_line}
use cicache.Pack.{Object}
use cicache.Store
use cicache.Store.{Store}
use cicache.Store.Uploads.{Step, dropped, spawned, finished, upload, upload_done}
use cicache.Proxy.Serving.{Setup, Proxy}
use cicache.Proxy.Dispatch.{
  Task, intercept, tunnel, or_default, Request, dispatch, dispatch_direct, connect, begin_task,
}
use cicache.Proxy.Recording.{Recorded, note-Recorded, get-counts, put-counts, silence}
use cicache.Proxy.Routing.{dispatch-Accounts, Accounts, serve_url-spawned, dispatch_direct-spawned}
use cicache.Proxy.Sessions.{
  Listener, queued, received, opened, begun, ServeStep, accepted, started, asked, closed, uploaded,
  progressed, Part, looks, sends, stores, notes, do_part, Serves, served, then_serves,
}

module _ (setup : Setup) where
  open setup use {mitm_ports, net, fs, config}

  -- A task decrypts exactly where its port is one of those configured.
  abbrev pub IsListed : Task → Type 0
  IsListed (intercept host port) = any (λ p. p == port) mitm_ports ≡ true
  IsListed (tunnel host port) = any (λ p. p == port) mitm_ports ≡ false

  abbrev pub AllListed : List Task → Type 0
  AllListed [] = Unit
  AllListed (task ∷ tasks) = IsListed task × AllListed tasks

  -- The log, where it is open, was written to as often as requests were counted.
  abbrev pub IsBalanced : Proxy setup → Type 0
  IsBalanced s =
      (file : LogFile) → s.log ≡ some file → s.store.counts.requests ≡ length file.pieces % 2 ^ 64

  pub record IsSound (l : Listener setup) : Type 0 where
    pub tasks : AllListed l.tasks
    pub decrypted : AllListed l.decrypted
    pub balanced : IsBalanced l.proxy

  AllListed-split :
      (before : List Task) (task : Task) (after : List Task)
      → AllListed (before ++ task ∷ after)
      → IsListed task × AllListed (before ++ after)
  AllListed-split [] task after h = h
  AllListed-split (t ∷ before) task after (now, rest) =
      let (at, others) = AllListed-split before task after rest in (at, (now, others))

  AllListed-opened :
      (b : Bool) (task : Task) (ts : List Task)
      → IsListed task
      → AllListed ts
      → AllListed (opened setup b task ts)
  AllListed-opened true (intercept host port) ts h all = (h, all)
  AllListed-opened true (tunnel host port) ts h all = all
  AllListed-opened false task ts h all = all

  abbrev pub pieces_in : Option LogFile → List Piece
  pieces_in none = []
  pieces_in (some file) = file.pieces

  Recorded-IsBalanced :
      (url : Bytes) (s s' : Proxy setup) → Recorded setup url s s' → IsBalanced s → IsBalanced s'
  Recorded-IsBalanced url s s' r balanced file open_log = elim (Option-cases s.log) [
    | inl absent ↦ absurd (cc (rw absent at r.log, open_log))
    | inr (before, is_open) ↦
        let written = piece_of r.line (before.results 0) in
        let grown : file.pieces ≡ before.pieces ++ written ∷ [] =
          ap pieces_in (sym open_log ∙ (r.log ∙ ap (λ l. write_line l r.line) is_open)) in
        let counted = balanced before is_open in
        let longer = ap length grown ∙ length-append before.pieces (written ∷ []) in
        r.requests ∙ ground (arith, counted, longer)
  ]

  -- What leaves the log and the count as they were.
  same-IsBalanced :
      (s s' : Proxy setup)
      → s'.log ≡ s.log
      → s'.store.counts.requests ≡ s.store.counts.requests
      → IsBalanced s
      → IsBalanced s'
  same-IsBalanced s s' log requests balanced file e = requests ∙ balanced file (sym log ∙ e)

  Accounts-IsBalanced :
      (t : Option (Result setup.urls.Url)) (s s' : Proxy setup)
      → Accounts setup t s s'
      → IsBalanced s
      → IsBalanced s'
  Accounts-IsBalanced none s s' (log, requests) b = same-IsBalanced s s' log requests b
  Accounts-IsBalanced (some (err message)) s s' (log, requests) b =
      same-IsBalanced s s' log requests b
  Accounts-IsBalanced (some (ok url)) s s' r b = Recorded-IsBalanced _ s s' r b

  begin_task-IsBalanced :
      (upgraded : Bool) (task : Task) (s : Proxy setup)
      → IsBalanced s
      → IsBalanced (begin_task setup upgraded task s)
  unfolding begin_task
  begin_task-IsBalanced false task s h = h
  begin_task-IsBalanced true (intercept host port) s h = h
  begin_task-IsBalanced true (tunnel host port) s h =
      Recorded-IsBalanced _ s _
        (note-Recorded setup _ _ _ 0 0 s s
          (record { log = refl; requests = refl; shutdown = refl }))
        h

  upload_done-requests :
      (o : Object) (r : Result Bool × State net) (s : Store net fs)
      → (upload_done net fs o r s).counts.requests ≡ s.counts.requests
  unfolding upload_done record_upload
  upload_done-requests o (ok true, r) s = refl
  upload_done-requests o (ok false, r) s = refl
  upload_done-requests o (err e, r) s = refl

  pub Step-requests :
      (s s' : Store net fs) → Step net fs config s s' → s'.counts.requests ≡ s.counts.requests
  unfolding upload
  Step-requests s _ (dropped _ o rest absent e) = refl
  Step-requests s _ (spawned _ gha o rest client e free) = refl
  Step-requests s _ (finished _ gha before o after client e) = upload_done-requests o _ _

  connect-AllListed :
      (authority : Option (Bytes × Option ℕ)) (s : Proxy setup) (ts : List Task)
      → AllListed ts
      → AllListed (queued setup (connect setup authority s).spawned ts)
  unfolding connect
  connect-AllListed none s ts all = all
  connect-AllListed (some (host, given)) s ts all =
      elim (Bool-cases (any (λ p. p == or_default 443 given) mitm_ports)) [
        | inl listed ↦ rw listed (listed, all)
        | inr unlisted ↦ rw unlisted (unlisted, all)
      ]

  dispatch-AllListed :
      (now : ℕ) (req : Request setup) (tunnelled : Option Bytes) (s : Proxy setup) (ts : List Task)
      → AllListed ts
      → AllListed (queued setup (dispatch setup now req tunnelled s).spawned ts)
  unfolding dispatch dispatch_direct
  dispatch-AllListed now req (some authority) s ts all =
      rw (serve_url-spawned setup now req _ s) all
  dispatch-AllListed now req none s ts all = elim (Bool-cases (same req.method (codes "CONNECT"))) [
    | inl command ↦ rw command (connect-AllListed req.uri.authority s ts all)
    | inr other ↦ rw (dispatch_direct-spawned setup now req s other) all
  ]

  received-IsSound :
      (now : ℕ) (req : Request setup) (tunnelled : Option Bytes) (l : Listener setup)
      → IsSound l
      → IsSound (received setup l (dispatch setup now req tunnelled l.proxy))
  unfolding received
  received-IsSound now req tunnelled l h = record {
    tasks = dispatch-AllListed now req tunnelled l.proxy l.tasks h.tasks;
    decrypted = h.decrypted;
    balanced =
        Accounts-IsBalanced _ l.proxy _ (dispatch-Accounts setup now req tunnelled l.proxy)
          h.balanced;
  }

  do_part-IsBalanced :
      (part : Part setup) (s : Proxy setup) → IsBalanced s → IsBalanced (do_part setup part s)
  unfolding do_part
  do_part-IsBalanced (looks key) s b =
      same-IsBalanced s (record s { store = (Store.get net fs config key s.store).1 }) refl
        (ap (λ c. c.requests) (get-counts setup key s.store)) b
  do_part-IsBalanced (sends world) s b = same-IsBalanced s (record s { world = world }) refl refl b
  do_part-IsBalanced (stores key bytes) s b =
      same-IsBalanced s (record s { store = Store.put net fs config key bytes s.store }) refl
        (ap (λ c. c.requests) (put-counts setup key bytes s.store)) b
  do_part-IsBalanced (notes outcome method url bytes millis) s b =
      Recorded-IsBalanced url s _
        (note-Recorded setup outcome method url bytes millis s s (silence setup s)) b

  ServeStep-IsSound : (l m : Listener setup) → ServeStep setup l m → IsSound l → IsSound m
  unfolding begun
  ServeStep-IsSound l _ (accepted now req _) h = received-IsSound now req none l h
  ServeStep-IsSound l _ (started upgraded shaken task before after _ e) h =
      let (listed, others) = AllListed-split before task after (subst AllListed e h.tasks) in
      record {
        tasks = others;
        decrypted = AllListed-opened (upgraded && shaken) task l.decrypted listed h.decrypted;
        balanced = begin_task-IsBalanced upgraded task l.proxy h.balanced;
      }
  ServeStep-IsSound l _ (asked now req host port before after _ e) h =
      received-IsSound now req _ l h
  ServeStep-IsSound l _ (closed task before after _ e) h = record {
    tasks = h.tasks;
    decrypted = (AllListed-split before task after (subst AllListed e h.decrypted)).1;
    balanced = h.balanced;
  }
  ServeStep-IsSound l _ (uploaded _ store step) h = record {
    tasks = h.tasks;
    decrypted = h.decrypted;
    balanced = λ lines e. Step-requests l.proxy.store store step ∙ h.balanced lines e;
  }
  ServeStep-IsSound l _ (progressed part _) h = record {
    tasks = h.tasks;
    decrypted = h.decrypted;
    balanced = do_part-IsBalanced part l.proxy h.balanced;
  }

  -- Whatever requests, tasks and uploads follow each other, three things stay true once they are: a
  -- connection is decrypted only on one of the configured ports, the tasks that wait are to decrypt
  -- exactly on those, and the log, where it is open, was written to once for every request that is
  -- counted, modulo 2 ^ 64, though such a
  -- write may fail or leave a part of its line. Counting a request and writing its line are one step.
  pub Serves-IsSound : (l m : Listener setup) → Serves setup l m → IsSound l → IsSound m
  Serves-IsSound l _ (served _) h = h
  Serves-IsSound l n (then_serves _ m _ step rest) h =
      Serves-IsSound m n rest (ServeStep-IsSound l m step h)
