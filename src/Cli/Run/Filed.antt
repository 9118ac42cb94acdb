-- ===== src/Cli/Run/Filed.antt =====
-- src/main.rs, over src/proxy.rs and src/store.rs: what the manifest of a run lists.
use cicache.Prelude.{
  ℕ, ◌≡◌, ◌⊎◌, inl, inr, sym, ◌∙◌, List, [], ◌∷◌, arith, Bool-cases, Option-cases,
}
use mathlib.Core.Path.{subst}
use cicache.Text.Utf8.{Bytes, codes}
use cicache.Text.Sort.{sort}
use cicache.Pack.{Object, returned}
use cicache.Gha
use cicache.Gha.{State, Result, ok, err}
use cicache.Stats.{LogFile}
use cicache.Store.{
  Store, new, save_index, save_pack, write_pack, pack_written, read_objects, manifest,
}
use cicache.Store.Uploads.{Steps, done, then_step, Flush, flushed}
use cicache.Store.Queue.{IsFiled, nothing, gets, Event-IsFiled, put-IsFiled, Step-IsFiled}
use cicache.Store.Listed.{load_pack-Knows, load_index-keeps}
use cicache.Proxy.Serving.{Setup}
use cicache.Proxy.Preservation.{IsStable, Serves-keeps}
use cicache.Proxy.Sessions.{Listener, Serves}
use cicache.Cli.Run.{opened_store, listening}

module _ (setup : Setup) where
  open setup use {net, fs, up, config}

  IsFiled-IsStable : (known : List Bytes) → IsStable setup (IsFiled net fs config known)
  IsFiled-IsStable known = record {
    on_get = λ key s. Event-IsFiled net fs config known s _ (gets key s);
    on_put = put-IsFiled net fs config known;
    on_count = λ c s f. record {
      waiting = f.waiting;
      running = f.running;
      listed = f.listed;
      within = f.within;
    };
    on_step = Step-IsFiled net fs config known;
  }

  -- A store that was opened has nothing to upload.
  opened-IsFiled :
      (disk : fs.Disk) (remote : State net) (s : Store net fs)
      → opened_store setup disk remote ≡ returned s
      → IsFiled net fs config s.index s
  unfolding opened_store new
  opened-IsFiled disk remote s opened =
      let (index, misses, channel, tasks) = load_pack-Knows net fs config _ s opened in
      let (misses', channel', tasks') = load_index-keeps net fs config (new net fs disk remote) in
      record {
        waiting = rw (channel ∙ channel') nothing;
        running = rw (tasks ∙ tasks') nothing;
        listed = λ key h. inl h;
        within = rw (tasks ∙ tasks') (omega arith);
      }

  Steps-IsFiled :
      (known : List Bytes) (s s' : Store net fs)
      → Steps net fs config s s'
      → IsFiled net fs config known s
      → IsFiled net fs config known s'
  Steps-IsFiled known s _ (done _) f = f
  Steps-IsFiled known s s'' (then_step step rest) f =
      Steps-IsFiled known _ s'' rest (Step-IsFiled net fs config known s _ step f)

  pack_written-IsFiled :
      (known : List Bytes) (objects size : ℕ) (r : Result _ × State net) (s : Store net fs)
      → IsFiled net fs config known s
      → IsFiled net fs config known (pack_written net fs objects size r s)
  unfolding pack_written
  pack_written-IsFiled known objects size (ok stored, r) s f = record {
    waiting = f.waiting;
    running = f.running;
    listed = f.listed;
    within = f.within;
  }
  pack_written-IsFiled known objects size (err e, r) s f = record {
    waiting = f.waiting;
    running = f.running;
    listed = f.listed;
    within = f.within;
  }

  write_pack-IsFiled :
      (known : List Bytes) (gha : Gha.GhaCache) (stamp : ℕ) (run_id : Bytes) (os : List Object)
      (s : Store net fs)
      → IsFiled net fs config known s
      → IsFiled net fs config known (write_pack net fs config gha stamp run_id os s)
  unfolding write_pack
  write_pack-IsFiled known gha stamp run_id [] s f = f
  write_pack-IsFiled known gha stamp run_id (o ∷ os) s f = pack_written-IsFiled known _ _ _ s f

  save_pack-cases :
      (stamp : ℕ) (run_id : Bytes) (s : Store net fs)
      → (save_pack net fs config stamp run_id s ≡ s)
        ⊎ ((gha : Gha.GhaCache) × (save_pack net fs config stamp run_id s
              ≡ write_pack net fs config gha stamp run_id
                  (read_objects net fs s.disk (sort s.packed))
                  s))
  unfolding save_pack
  save_pack-cases stamp run_id s = elim (Option-cases config.gha) [
    | inl absent ↦ inl (ground (arith, absent))
    | inr (gha, client) ↦ elim (Bool-cases s.pack_dirty) [
      | inr clean ↦ inl (ground (arith, client, clean))
      | inl dirty ↦ inr (gha, ground (arith, client, dirty))
    ]
  ]

  save_pack-IsFiled :
      (known : List Bytes) (stamp : ℕ) (run_id : Bytes) (s : Store net fs)
      → IsFiled net fs config known s
      → IsFiled net fs config known (save_pack net fs config stamp run_id s)
  save_pack-IsFiled known stamp run_id s f = elim (save_pack-cases stamp run_id s) [
    | inl same ↦ subst (IsFiled net fs config known) (sym same) f
    | inr (gha, wrote) ↦
        subst (IsFiled net fs config known) (sym wrote)
          (write_pack-IsFiled known gha stamp run_id _ s f)
  ]

  save_index-cases :
      (stamp : ℕ) (run_id : Bytes) (s : Store net fs)
      → (save_index net fs config stamp run_id s ≡ s)
        ⊎ ((r : State net) × (save_index net fs config stamp run_id s ≡ record s { remote = r }))
  unfolding save_index
  save_index-cases stamp run_id s = elim (Option-cases config.gha) [
    | inl absent ↦ inl (ground (arith, absent))
    | inr (gha, client) ↦ elim (Bool-cases s.index_dirty) [
      | inr clean ↦ inl (ground (arith, client, clean))
      | inl dirty ↦ inr (
        (Gha.put_scoped net gha config.key_prefix config.scope (codes "index")
            (manifest net fs s.index) stamp run_id s.remote).1,
        ground (arith, client, dirty),
      )
    ]
  ]

  save_index-IsFiled :
      (known : List Bytes) (stamp : ℕ) (run_id : Bytes) (s : Store net fs)
      → IsFiled net fs config known s
      → IsFiled net fs config known (save_index net fs config stamp run_id s)
  save_index-IsFiled known stamp run_id s f = elim (save_index-cases stamp run_id s) [
    | inl same ↦ subst (IsFiled net fs config known) (sym same) f
    | inr (r, sent) ↦
        subst (IsFiled net fs config known) (sym sent) (record {
          waiting = f.waiting;
          running = f.running;
          listed = f.listed;
          within = f.within;
        })
  ]

  -- Whatever requests, tasks and uploads a run of the proxy is made of, from a store that was opened:
  -- at any time what waits for an upload or has a task was put in this run, no more tasks than permits
  -- run, and what the manifest lists was in it when the store was opened or was put in this run; the
  -- same holds after a flush.
  pub Serves-IsFiled :
      (disk : fs.Disk) (remote : State net) (before : LogFile) (world : up.World)
      (s u : Store net fs) (l : Listener setup) (stamp : ℕ) (run_id : Bytes)
      → opened_store setup disk remote ≡ returned s
      → Serves setup (listening setup before world s) l
      → Flush net fs config stamp run_id l.proxy.store u
      → IsFiled net fs config s.index l.proxy.store × IsFiled net fs config s.index u
  Serves-IsFiled disk remote before world s u l stamp run_id opened serves flush =
      (running, flushed-IsFiled l.proxy.store u flush running)
    where
      running : IsFiled net fs config s.index l.proxy.store
      running =
          Serves-keeps setup (IsFiled net fs config s.index) (IsFiled-IsStable s.index)
            (listening setup before world s) l serves (opened-IsFiled disk remote s opened)

      flushed-IsFiled :
          (t u : Store net fs)
          → Flush net fs config stamp run_id t u
          → IsFiled net fs config s.index t
          → IsFiled net fs config s.index u
      flushed-IsFiled t _ (flushed _ t' steps idle empty) f =
          save_pack-IsFiled s.index stamp run_id _ (
            save_index-IsFiled s.index stamp run_id t' (
              Steps-IsFiled s.index _ t' steps (record {
                waiting = f.waiting;
                running = f.running;
                listed = f.listed;
                within = f.within;
              })))
