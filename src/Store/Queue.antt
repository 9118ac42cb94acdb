-- ===== src/Store/Queue.antt =====
-- What the uploads leave of the queue and the manifest, under every order of the tasks.
use cicache.Prelude.{
  ◌≤◌, ◌≡◌, ◌⊎◌, inl, inr, refl, Bool, true, false, Option, none, some, List, [], ◌∷◌, ◌++◌, arith,
  length, length-append, ltb, Bool-cases, Option-cases,
}
use cicache.Text.Utf8.{Bytes}
use cicache.Text.Set.{has, insert, has-insert, insert-keeps, insert-adds}
use cicache.Pack.{Object}
use cicache.Gha
use cicache.Gha.{Net, GhaCache, State, Result, ok, err}
use cicache.Store.{Fs, StoreConfig, Store, get, get_remote, keep_fetched, put, file_away}
use cicache.Store.Uploads.{permits, upload_done, upload, Step, dropped, spawned, finished}

module _ (net : Net) (fs : Fs) (config : StoreConfig) where
  -- What the job does to the store while it runs: a lookup, a store, or a step of the uploads.
  pub data Event : Store net fs → Store net fs → Type 0 where
    gets : (key : Bytes) (s : Store net fs) → Event s (get net fs config key s).1
    puts : (key bytes : Bytes) (s : Store net fs) → Event s (put net fs config key bytes s)
    uploads : {s s' : Store net fs} → Step net fs config s s' → Event s s'

  pub data Events : Store net fs → Store net fs → Type 0 where
    still : (s : Store net fs) → Events s s
    goes_on : {s s' s'' : Store net fs} → Event s s' → Events s' s'' → Events s s''

  -- Every object of the list has its key in the set.
  pub data AllIn (keys : List Bytes) : List Object → Type 0 where
    nothing : AllIn keys []
    also :
        {o : Object} {os : List Object}
        → has keys o.key ≡ true
        → AllIn keys os
        → AllIn keys (o ∷ os)

  -- The keys that are waiting were put, and what is in the manifest was put or was in it before.
  pub record IsFiled (known : List Bytes) (s : Store net fs) : Type 0 where
    pub waiting : AllIn s.queued s.channel
    pub running : AllIn s.queued s.tasks
    pub listed :
        (key : Bytes) → has s.index key ≡ true → (has known key ≡ true) ⊎ (has s.queued key ≡ true)
    pub within : length s.tasks ≤ permits config

  AllIn-append :
      (keys : List Bytes) (os os' : List Object)
      → AllIn keys os
      → AllIn keys os'
      → AllIn keys (os ++ os')
  AllIn-append keys [] os' nothing b = b
  AllIn-append keys (o ∷ os) os' (also h a) b = also h (AllIn-append keys os os' a b)

  AllIn-before :
      (keys : List Bytes) (os os' : List Object)
      → AllIn keys (os ++ os')
      → AllIn keys os × AllIn keys os'
  AllIn-before keys [] os' a = (nothing, a)
  AllIn-before keys (o ∷ os) os' (also h a) =
      let (l, r) = AllIn-before keys os os' a in (also h l, r)

  AllIn-mono :
      (keys : List Bytes) (key : Bytes) (os : List Object)
      → AllIn keys os
      → AllIn (insert keys key) os
  AllIn-mono keys key [] nothing = nothing
  AllIn-mono keys key (o ∷ os) (also h a) =
      also (insert-keeps keys key o.key h) (AllIn-mono keys key os a)

  keep_fetched-keeps :
      (key : Bytes) (r : Result (Option Bytes) × State net) (s : Store net fs)
      → let s' = (keep_fetched net fs key r s).1 in
        (s'.queued ≡ s.queued)
        × (s'.channel ≡ s.channel)
        × (s'.tasks ≡ s.tasks)
        × (s'.index ≡ s.index)
  unfolding keep_fetched
  keep_fetched-keeps key (ok (some bytes), r) s = (refl, refl, refl, refl)
  keep_fetched-keeps key (ok none, r) s = (refl, refl, refl, refl)
  keep_fetched-keeps key (err e, r) s = (refl, refl, refl, refl)

  -- A lookup leaves the queue and the manifest alone.
  get-keeps :
      (key : Bytes) (s : Store net fs)
      → let s' = (get net fs config key s).1 in
        (s'.queued ≡ s.queued)
        × (s'.channel ≡ s.channel)
        × (s'.tasks ≡ s.tasks)
        × (s'.index ≡ s.index)
  unfolding get get_remote
  get-keeps key s = elim (Option-cases config.gha) [
    | inl local ↦ ground (arith, local)
    | inr (gha, client) ↦
        ground (arith, client, keep_fetched-keeps key (Gha.get net gha key s.remote) s)
  ]

  -- An upload leaves the queue alone, and adds to the manifest no key but its own.
  upload_done-keeps :
      (o : Object) (r : Result Bool × State net) (s : Store net fs)
      → let s' = upload_done net fs o r s in
        (s'.queued ≡ s.queued)
        × (s'.channel ≡ s.channel)
        × (s'.tasks ≡ s.tasks)
        × ((key : Bytes) → has s'.index key ≡ true → (has s.index key ≡ true) ⊎ (o.key ≡ key))
  unfolding upload_done
  upload_done-keeps o (ok true, r) s = (
    refl,
    refl,
    refl,
    λ key h. elim (Bool-cases (has s.index key)) [
      | inl held ↦ inl held
      | inr new ↦ inr (insert-adds s.index o.key key h new)
    ],
  )
  upload_done-keeps o (ok false, r) s = (
    refl,
    refl,
    refl,
    λ key h. elim (Bool-cases (has s.index key)) [
      | inl held ↦ inl held
      | inr new ↦ inr (insert-adds s.index o.key key h new)
    ],
  )
  upload_done-keeps o (err e, r) s = (refl, refl, refl, λ key h. inl h)

  file_away-IsFiled :
      (known : List Bytes) (key bytes : Bytes) (s : Store net fs)
      → has s.queued key ≡ true
      → IsFiled known s
      → IsFiled known (file_away net fs config key bytes s)
  unfolding file_away
  file_away-IsFiled known key bytes s h f =
      elim (Bool-cases (ltb (length bytes) config.pack_threshold)) [
        | inl small ↦ rw small (record {
          waiting = f.waiting;
          running = f.running;
          listed = f.listed;
          within = f.within;
        })
        | inr large ↦ rw large (elim (Bool-cases s.is_open) [
          | inr closed ↦ rw closed (record {
            waiting = f.waiting;
            running = f.running;
            listed = f.listed;
            within = f.within;
          })
          | inl sends ↦ rw sends (record {
            waiting = AllIn-append s.queued s.channel _ f.waiting (also h nothing);
            running = f.running;
            listed = f.listed;
            within = f.within;
          })
        ])
      ]

  pub put-IsFiled :
      (known : List Bytes) (key bytes : Bytes) (s : Store net fs)
      → IsFiled known s
      → IsFiled known (put net fs config key bytes s)
  unfolding put
  put-IsFiled known key bytes s f = elim (Bool-cases (has s.queued key)) [
    | inl queued ↦ rw queued f
    | inr new ↦ rw new (
        file_away-IsFiled known key bytes _ (has-insert s.queued key) (record {
          waiting = AllIn-mono s.queued key s.channel f.waiting;
          running = AllIn-mono s.queued key s.tasks f.running;
          listed = λ k h. elim (f.listed k h) [
            | inl before ↦ inl before
            | inr queued ↦ inr (insert-keeps s.queued key k queued)
          ];
          within = f.within;
        }))
  ]

  AllIn-head :
      (keys : List Bytes) (o : Object) (os : List Object)
      → AllIn keys (o ∷ os)
      → has keys o.key ≡ true
  AllIn-head keys o os (also h a) = h

  AllIn-tail :
      (keys : List Bytes) (o : Object) (os : List Object) → AllIn keys (o ∷ os) → AllIn keys os
  AllIn-tail keys o os (also h a) = a

  pub Step-IsFiled :
      (known : List Bytes) (s s' : Store net fs)
      → Step net fs config s s'
      → IsFiled known s
      → IsFiled known s'
  Step-IsFiled known s _ (dropped _ o rest local e) f = record {
    waiting = AllIn-tail s.queued o rest (rw e at f.waiting);
    running = f.running;
    listed = f.listed;
    within = f.within;
  }
  Step-IsFiled known s _ (spawned _ gha o rest client e free) f = record {
    waiting = AllIn-tail s.queued o rest (rw e at f.waiting);
    running =
        AllIn-append s.queued s.tasks _ f.running
          (also (AllIn-head s.queued o rest (rw e at f.waiting)) nothing);
    listed = f.listed;
    within = ground (arith, length-append s.tasks (o ∷ []), free);
  }
  Step-IsFiled known s _ (finished _ gha before o after client e) f =
      let (queued, channel, tasks, listed) =
        upload_done-keeps o (Gha.put net gha o.key o.body s.remote)
          (record s { tasks = before ++ after }) in
      let (l, r) = AllIn-before s.queued before (o ∷ after) (rw e at f.running) in
      unfold upload in
      record {
        waiting = rw (queued, channel) f.waiting;
        running =
            rw (queued, tasks)
              (AllIn-append s.queued before after l (AllIn-tail s.queued o after r));
        listed = λ key h. rw queued (elim (listed key h) [
          | inl held ↦ f.listed key held
          | inr own ↦ inr (rw own at (AllIn-head s.queued o after r))
        ]);
        within = rw tasks (
            ground
              (arith, length-append before (o ∷ after), length-append before after, e, f.within));
      }

  pub Event-IsFiled :
      (known : List Bytes) (s s' : Store net fs) → Event s s' → IsFiled known s → IsFiled known s'
  Event-IsFiled known s _ (gets key _) f =
      let (queued, channel, tasks, index) = get-keeps key s in
      record {
        waiting = rw (queued, channel) f.waiting;
        running = rw (queued, tasks) f.running;
        listed = rw (queued, index) f.listed;
        within = rw tasks f.within;
      }
  Event-IsFiled known s _ (puts key bytes _) f = put-IsFiled known key bytes s f
  Event-IsFiled known s s' (uploads step) f = Step-IsFiled known s s' step f

  -- Whatever a running job does, in any order: the objects that wait for an upload or have a task
  -- were put, a key in the manifest was put or was known before, and no more tasks than permits
  -- run.
  pub Events-IsFiled :
      (known : List Bytes) {s s' : Store net fs} → Events s s' → IsFiled known s → IsFiled known s'
  Events-IsFiled known (still s) f = f
  Events-IsFiled known (goes_on e rest) f = Events-IsFiled known rest (Event-IsFiled known _ _ e f)
