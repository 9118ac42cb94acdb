-- ===== src/Store/Kept.antt =====
-- What becomes of a small object once it is stored: it stays on disk and among those to be packed.
use cicache.Prelude.{
  ℕ, ◌<◌, ◌≡◌, ◌≢◌, refl, ◌∙◌, Bool, true, false, Option, none, some, arith, length, ltb, lt→ltb,
  Bool-cases, Option-cases, inl, inr,
}
use cicache.Text.Utf8.{Bytes}
use cicache.Text.Set.{has, has-insert, insert-keeps}
use cicache.Pack.{Object}
use cicache.Gha.{Net, State, Result, ok, err}
use cicache.Store.{
  Fs, FsLaws, StoreConfig, Store, get, get_remote, keep_fetched, put, file_away, save_index,
  pack_written,
}
use cicache.Store.Uploads.{
  Step, Steps, done, then_step, dropped, spawned, finished, upload, upload_done,
}

module _ (net : Net) (fs : Fs) where
  pub record IsKept (key raw : Bytes) (s : Store net fs) : Type 0 where
    pub file : fs.read (fs.path key) s.disk ≡ some raw
    pub queued : has s.queued key ≡ true
    pub packed : has s.packed key ≡ true
    pub dirty : s.pack_dirty ≡ true

module _ (net : Net) (fs : Fs) (config : StoreConfig) (laws : FsLaws fs) (key raw : Bytes)
    (apart : (k : Bytes) → fs.path k ≡ fs.path key → k ≡ key) where
  abbrev Kept : Store net fs → Type 0
  Kept = IsKept net fs key raw

  -- Another file is written.
  written-other :
      (k bytes : Bytes) (d : fs.Disk)
      → k ≢ key
      → fs.read (fs.path key) d ≡ some raw
      → fs.read (fs.path key) (fs.write (fs.path k) bytes d).1 ≡ some raw
  written-other k bytes d other file =
      laws.read_other (fs.path k) (fs.path key) bytes d (λ e. other (apart k e)) ∙ file

  keep_fetched-IsKept :
      (k : Bytes) (r : Result (Option Bytes) × State net) (s : Store net fs)
      → k ≢ key
      → Kept s
      → Kept (keep_fetched net fs k r s).1
  unfolding keep_fetched
  keep_fetched-IsKept k (ok (some bytes), r) s other h = record {
    file = written-other k bytes s.disk other h.file;
    queued = h.queued;
    packed = h.packed;
    dirty = h.dirty;
  }
  keep_fetched-IsKept k (ok none, r) s other h = record {
    file = h.file;
    queued = h.queued;
    packed = h.packed;
    dirty = h.dirty;
  }
  keep_fetched-IsKept k (err e, r) s other h = record {
    file = h.file;
    queued = h.queued;
    packed = h.packed;
    dirty = h.dirty;
  }

  pub get-IsKept : (k : Bytes) (s : Store net fs) → Kept s → Kept (get net fs config k s).1
  unfolding get get_remote
  get-IsKept k s h = elim (Option-cases (fs.read (fs.path k) s.disk)) [
    | inr (bytes, local) ↦ rw (get, local) h
    | inl absent ↦ elim (Option-cases config.gha) [
      | inl alone ↦ rw (get, absent, alone) h
      | inr (gha, client) ↦ elim (Bool-cases (has s.index k)) [
        | inr unlisted ↦ rw (get, absent, client, unlisted) h
        | inl listed ↦ elim (Bool-cases (has s.remote_misses k)) [
          | inl missed ↦ rw (get, absent, client, listed, missed) h
          | inr asked ↦
              rw (get, absent, client, listed, asked)
                (keep_fetched-IsKept k _ s (λ e. cc (absent, h.file, e)) h)
        ]
      ]
    ]
  ]

  file_away-IsKept :
      (k bytes : Bytes) (s : Store net fs) → Kept s → Kept (file_away net fs config k bytes s)
  unfolding file_away
  file_away-IsKept k bytes s h = elim (Bool-cases (ltb (length bytes) config.pack_threshold)) [
    | inl small ↦ rw small (record {
      file = h.file;
      queued = h.queued;
      packed = insert-keeps s.packed k key h.packed;
      dirty = ground (arith, h.dirty);
    })
    | inr large ↦ elim (Bool-cases s.is_open) [
      | inl open_channel ↦
          rw (large, open_channel)
            (record { file = h.file; queued = h.queued; packed = h.packed; dirty = h.dirty })
      | inr shut ↦
          rw (large, shut)
            (record { file = h.file; queued = h.queued; packed = h.packed; dirty = h.dirty })
    ]
  ]

  pub put-IsKept :
      (k bytes : Bytes) (s : Store net fs) → Kept s → Kept (put net fs config k bytes s)
  unfolding put
  put-IsKept k bytes s h = elim (Bool-cases (has s.queued k)) [
    | inl queued ↦ rw queued h
    | inr new ↦ rw new (
        file_away-IsKept k bytes _ (record {
          file = written-other k bytes s.disk (λ e. cc (new, h.queued, e)) h.file;
          queued = insert-keeps s.queued k key h.queued;
          packed = h.packed;
          dirty = h.dirty;
        }))
  ]

  upload_done-IsKept :
      (o : Object) (r : Result Bool × State net) (s : Store net fs)
      → Kept s
      → Kept (upload_done net fs o r s)
  unfolding upload_done
  upload_done-IsKept o (ok true, r) s h = record {
    file = h.file;
    queued = h.queued;
    packed = h.packed;
    dirty = h.dirty;
  }
  upload_done-IsKept o (ok false, r) s h = record {
    file = h.file;
    queued = h.queued;
    packed = h.packed;
    dirty = h.dirty;
  }
  upload_done-IsKept o (err e, r) s h = record {
    file = h.file;
    queued = h.queued;
    packed = h.packed;
    dirty = h.dirty;
  }

  pub Step-IsKept : (s s' : Store net fs) → Step net fs config s s' → Kept s → Kept s'
  unfolding upload
  Step-IsKept s _ (dropped _ o rest absent e) h = record {
    file = h.file;
    queued = h.queued;
    packed = h.packed;
    dirty = h.dirty;
  }
  Step-IsKept s _ (spawned _ gha o rest client e free) h = record {
    file = h.file;
    queued = h.queued;
    packed = h.packed;
    dirty = h.dirty;
  }
  Step-IsKept s _ (finished _ gha before o after client e) h =
      upload_done-IsKept o _ _
        (record { file = h.file; queued = h.queued; packed = h.packed; dirty = h.dirty })

  pub Steps-IsKept : (s s' : Store net fs) → Steps net fs config s s' → Kept s → Kept s'
  Steps-IsKept s _ (done _) h = h
  Steps-IsKept s s'' (then_step step rest) h = Steps-IsKept _ s'' rest (Step-IsKept s _ step h)

  -- A small object that is new is kept from the time it is put.
  pub put-keeps :
      (s : Store net fs)
      → has s.queued key ≡ false
      → has s.packed key ≡ false
      → length raw < config.pack_threshold
      → (fs.write (fs.path key) raw s.disk).0 ≡ true
      → Kept (put net fs config key raw s)
  unfolding put file_away
  put-keeps s new unpacked small written =
      rw (new, lt→ltb _ _ small)
        (record {
          file = laws.read_written (fs.path key) raw s.disk written;
          queued = has-insert s.queued key;
          packed = has-insert s.packed key;
          dirty = rw unpacked refl;
        })

  pub save_index-IsKept :
      (stamp : ℕ) (run_id : Bytes) (s : Store net fs)
      → Kept s
      → Kept (save_index net fs config stamp run_id s)
  unfolding save_index
  save_index-IsKept stamp run_id s h = elim (Option-cases config.gha) [
    | inl absent ↦ rw (save_index, absent) h
    | inr (gha, client) ↦ elim (Bool-cases s.index_dirty) [
      | inl dirty ↦
          rw (save_index, client, dirty)
            (record { file = h.file; queued = h.queued; packed = h.packed; dirty = h.dirty })
      | inr clean ↦
          rw (save_index, client, clean)
            (record { file = h.file; queued = h.queued; packed = h.packed; dirty = h.dirty })
    ]
  ]

  pub pack_written-IsKept :
      (objects size : ℕ) (r : Result Bool × State net) (s : Store net fs)
      → Kept s
      → Kept (pack_written net fs objects size r s)
  unfolding pack_written
  pack_written-IsKept objects size (ok stored, r) s h = record {
    file = h.file;
    queued = h.queued;
    packed = h.packed;
    dirty = h.dirty;
  }
  pack_written-IsKept objects size (err e, r) s h = record {
    file = h.file;
    queued = h.queued;
    packed = h.packed;
    dirty = h.dirty;
  }
