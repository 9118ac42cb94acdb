-- ===== src/Cli/Report/Silence.antt =====
-- src/main.rs and src/store.rs: the warning of `stop` after a pack that the service did not take.
use cicache.Prelude.{◌<◌, ℕ, ◌≡◌, ◌≢◌, refl, true, some, List, ◌∷◌, arith}
use cicache.Text.Utf8.{Bytes, codes}
use cicache.Text.Sort.{sort}
use cicache.Pack
use cicache.Pack.{Object}
use cicache.Gha
use cicache.Gha.{Net, GhaCache, State, scoped_key}
use cicache.Stats.{Summary, record_packed}
use cicache.Store.{Fs, StoreConfig, Store, save_pack, write_pack, pack_written, read_objects}
use cicache.Store.Declined.{put-exhausted}
use cicache.Cli.Report.{none_reached, warning_of}

packed-warning_of : (c : Summary) → 0 < c.packed → warning_of c ≢ none_reached
unfolding warning_of
packed-warning_of c h e = ground (arith, h, e)

module _ (net : Net) (fs : Fs) (config : StoreConfig) (gha : GhaCache) where
  -- Where the client has given up on the service and there are small objects to pack, the pack is
  -- not sent, and is counted all the same: `stop` does not say that nothing reached the service.
  pub save_pack-silences :
      (s : Store net fs) (stamp : ℕ) (run_id : Bytes) (o : Object) (objects : List Object)
      → config.gha ≡ some gha
      → s.remote.exhausted ≡ true
      → s.pack_dirty ≡ true
      → read_objects net fs s.disk (sort s.packed) ≡ o ∷ objects
      → let s' = save_pack net fs config stamp run_id s in
        (s'.remote ≡ s.remote) × (warning_of s'.counts ≢ none_reached)
  save_pack-silences s stamp run_id o objects client gone dirty packed =
      let declined =
        put-exhausted net fs config gha (record { key = key; body = body }) s.remote gone in
      unfold save_pack write_pack pack_written Gha.put_scoped record_packed in
      rw (client, dirty, packed, declined) (refl, packed-warning_of _ (omega arith))
    where
      key : Bytes
      key = scoped_key config.key_prefix config.scope (codes "pack") stamp run_id

      body : Bytes
      body = Pack.encode (o ∷ objects) config.pack_limit
