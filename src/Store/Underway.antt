-- ===== src/Store/Underway.antt =====
-- What becomes of a large object once it is stored: it waits, is uploaded, and is listed.
use cicache.Prelude.{
  ◌≤◌, ◌≡◌, refl, Bool, true, false, ◌||◌, not, Option, none, some, [], ◌∷◌, arith, length, ltb,
  le→ltb, Bool-cases, Option-cases, inl, inr,
}
use cicache.Text.Utf8.{Bytes}
use cicache.Text.Compare.{same, same_iff, same_refl}
use cicache.Text.Set.{has, has-insert, insert-keeps, has-insert_or}
use cicache.Pack.{Object}
use cicache.Gha
use cicache.Gha.{Net, GhaCache, State, Result, ok, err}
use cicache.Store.{Fs, StoreConfig, Store, get, get_remote, keep_fetched, put, file_away}
use cicache.Store.Declined.{keys, has-keys-append}
use cicache.Store.Uploads.{
  Step, Steps, done, then_step, dropped, spawned, finished, upload, upload_done,
}

module _ (net : Net) (fs : Fs) where
  -- The key was put in this job; it waits, has a task, or is listed, and then the manifest is to be
  -- written.
  pub record IsUnderway (key : Bytes) (s : Store net fs) : Type 0 where
    pub queued : has s.queued key ≡ true
    pub dirty : (not (has s.index key) || s.index_dirty) ≡ true
    pub somewhere : (has (keys s.channel) key || (has (keys s.tasks) key || has s.index key)) ≡ true

module _ (net : Net) (fs : Fs) (config : StoreConfig) (gha : GhaCache) (key : Bytes)
    (client : config.gha ≡ some gha)
    (sends : (body : Bytes) (r : State net)
      → (b : Bool) × ((Gha.put net gha key body r).0 ≡ ok b)) where
  abbrev Underway : Store net fs → Type 0
  Underway = IsUnderway net fs key

  keep_fetched-IsUnderway :
      (k : Bytes) (r : Result (Option Bytes) × State net) (s : Store net fs)
      → Underway s
      → Underway (keep_fetched net fs k r s).1
  unfolding keep_fetched
  keep_fetched-IsUnderway k (ok (some bytes), r) s h = record {
    queued = h.queued;
    dirty = h.dirty;
    somewhere = h.somewhere;
  }
  keep_fetched-IsUnderway k (ok none, r) s h = record {
    queued = h.queued;
    dirty = h.dirty;
    somewhere = h.somewhere;
  }
  keep_fetched-IsUnderway k (err e, r) s h = record {
    queued = h.queued;
    dirty = h.dirty;
    somewhere = h.somewhere;
  }

  pub get-IsUnderway :
      (k : Bytes) (s : Store net fs) → Underway s → Underway (get net fs config k s).1
  unfolding get get_remote
  get-IsUnderway k s h = elim (Option-cases (fs.read (fs.path k) s.disk)) [
    | inr (bytes, local) ↦ rw (get, local) h
    | inl absent ↦ elim (Bool-cases (has s.index k)) [
      | inr unlisted ↦ rw (get, absent, client, unlisted) h
      | inl listed ↦ elim (Bool-cases (has s.remote_misses k)) [
        | inl missed ↦ rw (get, absent, client, listed, missed) h
        | inr asked ↦ rw (get, absent, client, listed, asked) (keep_fetched-IsUnderway k _ s h)
      ]
    ]
  ]

  file_away-IsUnderway :
      (k bytes : Bytes) (s : Store net fs)
      → Underway s
      → Underway (file_away net fs config k bytes s)
  unfolding file_away
  file_away-IsUnderway k bytes s h = elim (Bool-cases (ltb (length bytes) config.pack_threshold)) [
    | inl small ↦ rw small (record { queued = h.queued; dirty = h.dirty; somewhere = h.somewhere })
    | inr large ↦ elim (Bool-cases s.is_open) [
      | inl open_channel ↦
          rw (large, open_channel)
            (record {
              queued = h.queued;
              dirty = h.dirty;
              somewhere = ground (
                arith,
                h.somewhere,
                has-keys-append s.channel (record { key = k; body = bytes } ∷ []) key,
              );
            })
      | inr shut ↦
          rw (large, shut) (record { queued = h.queued; dirty = h.dirty; somewhere = h.somewhere })
    ]
  ]

  pub put-IsUnderway :
      (k bytes : Bytes) (s : Store net fs) → Underway s → Underway (put net fs config k bytes s)
  unfolding put
  put-IsUnderway k bytes s h = elim (Bool-cases (has s.queued k)) [
    | inl queued ↦ rw queued h
    | inr new ↦ rw new (
        file_away-IsUnderway k bytes _ (record {
          queued = insert-keeps s.queued k key h.queued;
          dirty = h.dirty;
          somewhere = h.somewhere;
        }))
  ]

  -- Of the upload of an object: what there was before it, less the object.
  upload_done-IsUnderway :
      (o : Object) (r : Result Bool × State net) (s : Store net fs)
      → (o.key ≡ key → (b : Bool) × (r.0 ≡ ok b))
      → has s.queued key ≡ true
      → (not (has s.index key) || s.index_dirty) ≡ true
      → (has (keys s.channel) key
          || (has (keys s.tasks) key || (has s.index key || same o.key key)))
        ≡ true
      → Underway (upload_done net fs o r s)
  unfolding upload_done
  upload_done-IsUnderway o (ok true, r) s accepted queued dirty somewhere = record {
    queued = queued;
    dirty = ground (arith, dirty, has-insert_or s.index o.key key, same_iff o.key key);
    somewhere = ground (arith, somewhere, has-insert_or s.index o.key key);
  }
  upload_done-IsUnderway o (ok false, r) s accepted queued dirty somewhere = record {
    queued = queued;
    dirty = ground (arith, dirty, has-insert_or s.index o.key key, same_iff o.key key);
    somewhere = ground (arith, somewhere, has-insert_or s.index o.key key);
  }
  upload_done-IsUnderway o (err e, r) s accepted queued dirty somewhere =
      elim (Bool-cases (same o.key key)) [
        | inl own ↦ absurd (let (b, is_ok) = accepted ((same_iff o.key key).0 own) in cc is_ok)
        | inr other ↦ record {
          queued = queued;
          dirty = dirty;
          somewhere = ground (arith, somewhere, other);
        }
      ]

  pub Step-IsUnderway : (s s' : Store net fs) → Step net fs config s s' → Underway s → Underway s'
  unfolding upload has keys
  Step-IsUnderway s _ (dropped _ o rest absent e) h = absurd (cc (absent, client))
  Step-IsUnderway s _ (spawned _ gha' o rest client' e free) h = record {
    queued = h.queued;
    dirty = h.dirty;
    somewhere = ground (arith, e, h.somewhere, has-keys-append s.tasks (o ∷ []) key);
  }
  Step-IsUnderway s _ (finished _ gha' before o others client' e) h =
      upload_done-IsUnderway o _ _
        (λ own.
          let one_client : gha' ≡ gha = ground (arith, client, client') in
          rw (one_client, own) (sends o.body s.remote))
        h.queued h.dirty
        (ground (
          arith,
          e,
          h.somewhere,
          has-keys-append before (o ∷ others) key,
          has-keys-append before others key,
        ))

  pub Steps-IsUnderway : (s s' : Store net fs) → Steps net fs config s s' → Underway s → Underway s'
  Steps-IsUnderway s _ (done _) h = h
  Steps-IsUnderway s s'' (then_step step rest) h =
      Steps-IsUnderway _ s'' rest (Step-IsUnderway s _ step h)

  -- A large object that is new and not listed is underway from the time it is put.
  pub put-IsUnderway_first :
      (raw : Bytes) (s : Store net fs)
      → has s.queued key ≡ false
      → has s.index key ≡ false
      → config.pack_threshold ≤ length raw
      → s.is_open ≡ true
      → Underway (put net fs config key raw s)
  unfolding put file_away
  put-IsUnderway_first raw s new unlisted large open_channel =
      rw (new, le→ltb _ _ large, open_channel)
        (record {
          queued = has-insert s.queued key;
          dirty = rw unlisted refl;
          somewhere =
              unfold has keys in
              ground (
                arith,
                same_refl key,
                has-keys-append s.channel (record { key = key; body = raw } ∷ []) key,
              );
        })
