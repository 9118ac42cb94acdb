-- ===== src/Store/ManifestSent.antt =====
-- src/store.rs: that the manifest which a flush writes lists what was underway.
use cicache.Prelude.{ℕ, ◌≡◌, sym, true, some, [], arith}
use mathlib.Core.Path.{subst}
use cicache.Text.Utf8.{Bytes, codes}
use cicache.Text.Set.{has}
use cicache.Gha
use cicache.Gha.{Net, GhaCache, State}
use cicache.Gha.Sends.{Sends, put_scoped-Sends}
use cicache.Store.{Fs, StoreConfig, Store, save_index, manifest}
use cicache.Store.Declined.{keys}
use cicache.Store.Underway.{IsUnderway}

module _ (net : Net) (fs : Fs) (config : StoreConfig) (gha : GhaCache)
    (client : config.gha ≡ some gha) where
  save_index-remote :
      (stamp : ℕ) (run_id : Bytes) (s : Store net fs)
      → s.index_dirty ≡ true
      → (save_index net fs config stamp run_id s).remote
        ≡ (Gha.put_scoped net gha config.key_prefix config.scope
            (codes "index")
            (manifest net fs s.index)
            stamp
            run_id
            s.remote).1
  unfolding save_index
  save_index-remote stamp run_id s dirty = ground (arith, client, dirty)

  -- Once nothing is left to upload, the key is listed, and writing the manifest offers it.
  pub save_index-listed :
      (key : Bytes) (stamp : ℕ) (run_id : Bytes) (s : Store net fs)
      → IsUnderway net fs key s
      → s.channel ≡ []
      → s.tasks ≡ []
      → (has s.index key ≡ true)
        × Sends net gha config.key_prefix config.scope
            (codes "index")
            (manifest net fs s.index)
            stamp
            run_id
            s.remote
            (save_index net fs config stamp run_id s).remote
  save_index-listed key stamp run_id s h idle empty = (
    listed,
    subst
        (Sends net gha config.key_prefix config.scope (codes "index") (manifest net fs s.index)
          stamp run_id s.remote)
        (sym (save_index-remote stamp run_id s (ground (arith, listed, h.dirty))))
        (put_scoped-Sends net gha _ _ _ _ stamp run_id s.remote),
  )
    where
      listed : has s.index key ≡ true
      listed = unfold has keys in ground (arith, idle, empty, h.somewhere)
