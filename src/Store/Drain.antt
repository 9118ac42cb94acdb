-- ===== src/Store/Drain.antt =====
-- That the queue runs empty, what is done with each object on the way, and what the manifest takes
-- from a declined upload.
use cicache.Prelude.{
  ℕ, zero, suc, ◌+◌, ◌≤◌, ◌<◌, ◌≡◌, ◌⊎◌, refl, Bool, true, false, Option, none, some, List, [], ◌∷◌,
  ◌++◌, arith, length, length-append, inl, inr,
}
use cicache.Text.Utf8.{Bytes}
use cicache.Pack.{Object}
use cicache.Gha
use cicache.Gha.{Net, GhaCache, State, Result, ok, err}
use cicache.Store.{Fs, StoreConfig, Store}
use cicache.Store.Uploads.{
  upload_done, upload, Step, dropped, spawned, finished, Steps, done, then_step, Flush, flushed,
}

module _ (net : Net) (fs : Fs) (config : StoreConfig) where
  -- The objects still to be dealt with, a task counted once and an object of the channel twice.
  unfoldable pub work : Store net fs → ℕ
  work s = length s.channel + length s.channel + length s.tasks

  upload_done-queue :
      (o : Object) (r : Result Bool × State net) (s : Store net fs)
      → ((upload_done net fs o r s).channel ≡ s.channel)
        × ((upload_done net fs o r s).tasks ≡ s.tasks)
  unfolding upload_done
  upload_done-queue o (ok true, r) s = (refl, refl)
  upload_done-queue o (ok false, r) s = (refl, refl)
  upload_done-queue o (err e, r) s = (refl, refl)

  Step-work : (s s' : Store net fs) → Step net fs config s s' → work s' < work s
  unfolding work
  Step-work s _ (dropped _ o rest local e) = ground (arith, e)
  Step-work s _ (spawned _ gha o rest client e free) =
      ground (arith, e, length-append s.tasks (o ∷ []))
  Step-work s _ (finished _ gha before o others client e) =
      unfold upload in
      ground (
        arith,
        e,
        length-append before (o ∷ others),
        length-append before others,
        upload_done-queue o (Gha.put net gha o.key o.body s.remote)
            (record s { tasks = before ++ others }),
      )

  unfoldable pub length-steps : {s s' : Store net fs} → Steps net fs config s s' → ℕ
  length-steps (done s) = 0
  length-steps (then_step step rest) = suc (length-steps rest)

  -- Whatever the order of the tasks, the uploads end: a run is no longer than twice the objects in
  -- the channel and the tasks.
  pub length-steps-le :
      {s s' : Store net fs} (r : Steps net fs config s s') → length-steps r ≤ work s
  unfolding length-steps
  length-steps-le (done s) = omega arith
  length-steps-le (then_step step rest) = ground (arith, Step-work _ _ step, length-steps-le rest)

  -- Only a job with a client has tasks.
  abbrev pub HasClient : Store net fs → Type 0
  HasClient s = config.gha ≡ none → s.tasks ≡ []

  Step-HasClient : (s s' : Store net fs) → Step net fs config s s' → HasClient s → HasClient s'
  Step-HasClient s _ (dropped _ o rest local e) h = h
  Step-HasClient s _ (spawned _ gha o rest client e free) h = λ local. cc
  Step-HasClient s _ (finished _ gha before o others client e) h = λ local. cc

  next-Step :
      (s : Store net fs)
      → HasClient s
      → ((s.channel ≡ []) × (s.tasks ≡ [])) ⊎ ((s' : Store net fs) × Step net fs config s s')
  next-Step s h = go s.channel s.tasks config.gha refl refl refl
    where
      go :
          (channel tasks : List Object) (gha : Option GhaCache)
          → s.channel ≡ channel
          → s.tasks ≡ tasks
          → config.gha ≡ gha
          → ((s.channel ≡ []) × (s.tasks ≡ [])) ⊎ ((s' : Store net fs) × Step net fs config s s')
      go [] [] gha c t g = inl (c, t)
      go channel (o ∷ os) none c t g = absurd (ground (arith, t, h g))
      go channel (o ∷ os) (some gha) c t g = inr (_, finished s gha [] o os g t)
      go (o ∷ rest) [] none c t g = inr (_, dropped s o rest g c)
      go (o ∷ rest) [] (some gha) c t g = inr (_, spawned s gha o rest g c (ground (arith, t)))

  drain :
      (n : ℕ) (s : Store net fs)
      → HasClient s
      → work s < n
      → (s' : Store net fs) × Steps net fs config s s' × (s'.channel ≡ []) × (s'.tasks ≡ [])
  drain zero s h small = absurd (omega arith)
  drain (suc n) s h small = elim (next-Step s h) [
    | inl (c, t) ↦ (s, done s, c, t)
    | inr (s₁, step) ↦
        let (s', rest, c, t) =
          drain n s₁ (Step-HasClient s s₁ step h) (ground (arith, Step-work s s₁ step, small)) in
        (s', then_step step rest, c, t)
  ]

  -- From a store whose tasks have a client, `flush` can always come to its end.
  pub Flush-ends :
      (stamp : ℕ) (run_id : Bytes) (s : Store net fs)
      → HasClient s
      → (s' : Store net fs) × Flush net fs config stamp run_id s s'
  Flush-ends stamp run_id s h =
      let (s', steps, c, t) =
        drain (suc (work (record s { is_open = false }))) (record s { is_open = false }) h
          (omega arith) in
      (_, flushed s s' steps c t)
