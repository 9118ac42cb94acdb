-- ===== src/Store/Listed.antt =====
-- The keys that a store knows once it has loaded the manifest and the pack, and the lookup of one.
use cicache.Prelude.{
  Option-cases, inl, inr, ◌≡◌, refl, ap, ◌∙◌, Bool, true, false, Option, none, some, List, [], ◌∷◌,
  arith,
}
use cicache.Text.Utf8.{Bytes, codes}
use cicache.Text.Lines.Laws.{AllLines}
use cicache.Text.Set.{has}
use cicache.Pack
use cicache.Pack.{Object, Run, returned, panicked, out_of_fuel}
use cicache.Gha
use cicache.Gha.{Net, GhaCache, State, Result, ok, err}
use cicache.Store.{
  Fs, StoreConfig, Store, new, get, get_remote, keep_fetched, manifest, load_index, load_raw_index,
  load_pack, load_raw_pack, unpack_decoded, unpack, keep_written,
}
use cicache.Store.Manifest.{has-load_index}

module _ (net : Net) (fs : Fs) where
  -- The keys that are known, those that the service is known to miss, and what is to be uploaded are
  -- the same.
  abbrev pub Knows : Store net fs → Store net fs → Type 0
  Knows s t =
      (t.index ≡ s.index)
      × (t.remote_misses ≡ s.remote_misses)
      × (t.channel ≡ s.channel)
      × (t.tasks ≡ s.tasks)

  keep_written-Knows :
      (key : Bytes) (w : Bool × fs.Disk) (s : Store net fs) → Knows s (keep_written net fs key w s)
  unfolding keep_written
  keep_written-Knows key (true, disk) s = (refl, refl, refl, refl)
  keep_written-Knows key (false, disk) s = (refl, refl, refl, refl)

  unpack-Knows : (os : List Object) (s : Store net fs) → Knows s (unpack net fs os s)
  unfolding unpack
  unpack-Knows [] s = (refl, refl, refl, refl)
  unpack-Knows (o ∷ os) s =
      let w = fs.write (fs.path o.key) o.body s.disk in
      let (a, b, c, d) = unpack-Knows os (keep_written net fs o.key w s) in
      let (a', b', c', d') = keep_written-Knows o.key w s in (a ∙ a', b ∙ b', c ∙ c', d ∙ d')

  returned-Knows : (s t u : Store net fs) → Knows s u → returned u ≡ returned t → Knows s t
  returned-Knows s t u k e = let same : u ≡ t = cc e in rw⁻¹ same k

  unpack_decoded-Knows :
      (d : Run (Pack.Result (List Object))) (s t : Store net fs)
      → unpack_decoded net fs d s ≡ returned t
      → Knows s t
  unfolding unpack_decoded
  unpack_decoded-Knows (returned (Pack.Result.ok os)) s t e =
      returned-Knows s t _ (unpack-Knows os s) e
  unpack_decoded-Knows (returned (Pack.Result.err x)) s t e =
      returned-Knows s t s (refl, refl, refl, refl) e
  unpack_decoded-Knows panicked s t e = absurd (cc e)
  unpack_decoded-Knows out_of_fuel s t e = absurd (cc e)

  load_raw_pack-Knows :
      (r : Result (Option Bytes) × State net) (s t : Store net fs)
      → load_raw_pack net fs r s ≡ returned t
      → Knows s t
  unfolding load_raw_pack
  load_raw_pack-Knows (ok (some raw), r) s t e =
      unpack_decoded-Knows (Pack.decode raw) (record s { remote = r }) t e
  load_raw_pack-Knows (ok none, r) s t e = returned-Knows s t _ (refl, refl, refl, refl) e
  load_raw_pack-Knows (err x, r) s t e = returned-Knows s t _ (refl, refl, refl, refl) e

  load_raw_index-keeps :
      (r : Result (Option Bytes) × State net) (s : Store net fs)
      → let t = load_raw_index net fs r s in
        (t.remote_misses ≡ s.remote_misses) × (t.channel ≡ s.channel) × (t.tasks ≡ s.tasks)
  unfolding load_raw_index
  load_raw_index-keeps (ok (some raw), r) s = (refl, refl, refl)
  load_raw_index-keeps (ok none, r) s = (refl, refl, refl)
  load_raw_index-keeps (err e, r) s = (refl, refl, refl)

  module _ (config : StoreConfig) where
    pub load_pack-Knows : (s t : Store net fs) → load_pack net fs config s ≡ returned t → Knows s t
    unfolding load_raw_pack load_pack
    load_pack-Knows s t e = elim (Option-cases config.gha) [
      | inl absent ↦ returned-Knows s t s (refl, refl, refl, refl) (rw (load_pack, absent) at e)
      | inr (gha, client) ↦
          load_raw_pack-Knows
            (Gha.get_scoped net gha config.key_prefix config.scope (codes "pack") s.remote) s t
            (rw (load_pack, client) at e)
    ]

    pub load_index-keeps :
        (s : Store net fs)
        → let t = load_index net fs config s in
          (t.remote_misses ≡ s.remote_misses) × (t.channel ≡ s.channel) × (t.tasks ≡ s.tasks)
    unfolding load_index load_raw_index
    load_index-keeps s = elim (Option-cases config.gha) [
      | inl absent ↦ rw (load_index, absent) (refl, refl, refl)
      | inr (gha, client) ↦
          rw (load_index, client)
            (load_raw_index-keeps
              (Gha.get_scoped net gha config.key_prefix config.scope (codes "index") s.remote) s)
    ]

  module _ (config : StoreConfig) (gha : GhaCache) (client : config.gha ≡ some gha) where
    -- A store that is opened where the service gives back the manifest of an index knows its keys, and
    -- has missed none.
    pub opened-listed :
        (disk : fs.Disk) (remote r : State net) (index : List Bytes) (key : Bytes)
        (v : Store net fs)
        → AllLines index
        → has index key ≡ true
        → Gha.get_scoped net gha config.key_prefix config.scope (codes "index") remote
          ≡ (ok (some (manifest net fs index)), r)
        → load_pack net fs config (load_index net fs config (new net fs disk remote)) ≡ returned v
        → (has v.index key ≡ true) × (has v.remote_misses key ≡ false)
    unfolding new
    opened-listed disk remote r index key v all held answer opened =
        let (known, misses, channel, tasks) = load_pack-Knows config _ v opened in
        let loaded =
          has-load_index net fs config gha (new net fs disk remote) r index key client all answer in
        (
          ap (λ t. has t key) known ∙ loaded ∙ (unfold has in held),
          ap (λ t. has t key) (misses ∙ (load_index-keeps config (new net fs disk remote)).0)
              ∙ (unfold has in refl),
        )

    -- A listed key without a file is fetched, and its file is written.
    pub get_listed :
        (key raw : Bytes) (s : Store net fs) (r : State net)
        → fs.read (fs.path key) s.disk ≡ none
        → has s.index key ≡ true
        → has s.remote_misses key ≡ false
        → Gha.get net gha key s.remote ≡ (ok (some raw), r)
        → get net fs config key s
          ≡ (some raw, record s { disk = (fs.write (fs.path key) raw s.disk).1; remote = r })
    unfolding get get_remote keep_fetched
    get_listed key raw s r absent listed asked answer =
        ground (arith, client, absent, listed, asked, answer)
