-- ===== src/Store/Uploads.antt =====
-- src/store.rs: `upload_loop` as a step relation, and `flush`.
-- A task that holds a permit runs at any time after it was spawned; its upload is one step.
use cicache.Prelude.{
  ℕ, ◌<◌, ◌≡◌, Bool, true, false, ◌||◌, not, none, some, List, [], ◌∷◌, ◌++◌, length, ltb,
  if◌then◌else◌,
}
use cicache.Text.Utf8.{Bytes}
use cicache.Text.Set.{has, insert}
use cicache.Stats.{record_upload}
use cicache.Pack.{Object}
use cicache.Gha
use cicache.Gha.{Net, GhaCache, State, Result, ok, err}
use cicache.Store.{Fs, StoreConfig, Store, save_index, save_pack}

-- `concurrency.max(1)`.
abbrev pub permits : StoreConfig → ℕ
permits config = if ltb config.concurrency 1 then 1 else config.concurrency

module _ (net : Net) (fs : Fs) where
  unfoldable pub upload_done : Object → Result Bool × State net → Store net fs → Store net fs
  upload_done o (ok true, r) s = record s {
    remote = r;
    counts = record_upload s.counts (length o.body) true;
    index = insert s.index o.key;
    index_dirty = not (has s.index o.key) || s.index_dirty;
  }
  upload_done o (ok false, r) s = record s {
    remote = r;
    index = insert s.index o.key;
    index_dirty = not (has s.index o.key) || s.index_dirty;
  }
  upload_done o (err e, r) s = record s { remote = r; counts = record_upload s.counts 0 false }

  -- What a task does.
  unfoldable pub upload : GhaCache → Object → Store net fs → Store net fs
  upload gha o s = upload_done o (Gha.put net gha o.key o.body s.remote) s

  -- The loop receives an object, and drops it if there is no client or spawns a task if there is a
  -- permit left; and a task, whichever it is, uploads and gives its permit back.
  pub data Step (config : StoreConfig) : Store net fs → Store net fs → Type 0 where
    dropped :
        (s : Store net fs) (o : Object) (rest : List Object)
        → config.gha ≡ none
        → s.channel ≡ o ∷ rest
        → Step config s (record s { channel = rest })
    spawned :
        (s : Store net fs) (gha : GhaCache) (o : Object) (rest : List Object)
        → config.gha ≡ some gha
        → s.channel ≡ o ∷ rest
        → length s.tasks < permits config
        → Step config s (record s { channel = rest; tasks = s.tasks ++ o ∷ [] })
    finished :
        (s : Store net fs) (gha : GhaCache) (before : List Object) (o : Object)
        (after : List Object)
        → config.gha ≡ some gha
        → s.tasks ≡ before ++ o ∷ after
        → Step config s (upload gha o (record s { tasks = before ++ after }))

  pub data Steps (config : StoreConfig) : Store net fs → Store net fs → Type 0 where
    done : (s : Store net fs) → Steps config s s
    then_step :
        {s s' s'' : Store net fs} → Step config s s' → Steps config s' s'' → Steps config s s''

  -- `flush`: the sender is dropped, the loop runs until nothing is left, and then the manifest and
  -- the pack are written. No request comes meanwhile; `Cli.Run.Closes` has those that do.
  pub data Flush (config : StoreConfig) (stamp : ℕ) (run_id : Bytes)
      : Store net fs → Store net fs → Type 0 where
    flushed :
        (s s' : Store net fs)
        → Steps config (record s { is_open = false }) s'
        → s'.channel ≡ []
        → s'.tasks ≡ []
        → Flush config stamp run_id s
            (save_pack net fs config stamp run_id (save_index net fs config stamp run_id s'))
