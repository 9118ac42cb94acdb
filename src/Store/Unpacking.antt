-- ===== src/Store/Unpacking.antt =====
-- The round trip of the pack through the service.
use cicache.Prelude.{
  ℕ, ◌+◌, ◌^◌, ◌≤◌, ◌<◌, ◌≡◌, ◌∙◌, Bool, true, false, ◌||◌, some, List, [], ◌∷◌, arith,
}
use cicache.Text.Utf8.{Bytes, codes}
use cicache.Text.Compare.{same}
use cicache.Text.Set.{has, has-insert_or}
use cicache.Pack
use cicache.Pack.{Object, Run, returned}
use cicache.Pack.Laws.{AllStorable, total_len, decode-encode}
use cicache.Gha
use cicache.Gha.{Net, GhaCache, State, ok}
use cicache.Store.{
  Fs, StoreConfig, Store, keep_written, unpack, unpack_decoded, load_raw_pack, load_pack,
}
use cicache.Store.Declined.{keys}

module _ (net : Net) (fs : Fs) where
  has-keep_written :
      (key k : Bytes) (w : Bool × fs.Disk) (s : Store net fs)
      → w.0 ≡ true
      → has (keep_written net fs key w s).packed k ≡ (has s.packed k || same key k)
  unfolding keep_written
  has-keep_written key k (true, disk) s h = has-insert_or s.packed key k
  has-keep_written key k (false, disk) s h = cc

  has-unpack :
      (objects : List Object) (s : Store net fs) (k : Bytes)
      → ((p : fs.File) (bytes : Bytes) (d : fs.Disk) → (fs.write p bytes d).0 ≡ true)
      → has (unpack net fs objects s).packed k ≡ (has s.packed k || has (keys objects) k)
  unfolding unpack has keys
  has-unpack [] s k writes = ground arith
  has-unpack (o ∷ objects) s k writes =
      has-unpack objects _ k writes
      ∙ ground (
        arith,
        has-keep_written o.key k (fs.write (fs.path o.key) o.body s.disk) s
            (writes (fs.path o.key) o.body s.disk),
      )

  -- Where the service gives back a pack of objects that fitted under its ceiling, and every write
  -- succeeds, the store then has as packed the keys that it had and those of the objects, and no
  -- others.
  pub has-load_pack :
      (config : StoreConfig) (gha : GhaCache) (s : Store net fs) (r : State net)
      (objects : List Object) (max_bytes : ℕ)
      → config.gha ≡ some gha
      → AllStorable objects
      → 4 + total_len objects ≤ max_bytes
      → max_bytes < 2 ^ 63
      → Gha.get_scoped net gha config.key_prefix config.scope (codes "pack") s.remote
        ≡ (ok (some (Pack.encode objects max_bytes)), r)
      → ((p : fs.File) (bytes : Bytes) (d : fs.Disk) → (fs.write p bytes d).0 ≡ true)
      → (s' : Store net fs) × (load_pack net fs config s ≡ returned s')
        × ((k : Bytes) → has s'.packed k ≡ (has s.packed k || has (keys objects) k))
  has-load_pack config gha s r objects max_bytes client storable fits small answer writes = (
    unpack net fs objects (record s { remote = r }),
    unfold load_pack load_raw_pack unpack_decoded in
        ground (arith, client, answer, decode-encode objects max_bytes storable fits small),
    λ k. has-unpack objects (record s { remote = r }) k writes,
  )
