-- ===== src/Store/Manifest.antt =====
-- The round trip of the manifest through the service.
use cicache.Prelude.{◌≡◌, refl, sym, ap, ◌∙◌, ◌||◌, some, List, [], ◌∷◌, arith}
use cicache.Text.Utf8.{Bytes, codes, from_utf8_lossy-valid}
use cicache.Text.Compare.{same_refl}
use cicache.Text.Lines.{join}
use cicache.Text.Lines.Laws.{AllLines, lines-join, utf8_valid-join}
use cicache.Text.Sort.{sort, dedup}
use cicache.Text.Sort.Laws.{has-sort, has-dedup}
use cicache.Text.Set.{has, insert, has-insert_or}
use cicache.Gha
use cicache.Gha.{Net, GhaCache, State, Result, ok, err}
use cicache.Store.{Fs, StoreConfig, Store, insert_lines, load_raw_index, load_index, manifest}

module _ (net : Net) (fs : Fs) where
  has-insert_lines :
      (index ks : List Bytes) (x : Bytes)
      → AllLines ks
      → has (insert_lines net fs index ks) x ≡ (has index x || has ks x)
  unfolding insert_lines has
  has-insert_lines index [] x all = ground arith
  has-insert_lines index (k ∷ ks) x all = rw ((all k (ground (arith, same_refl k))).printed) (
      has-insert_lines (insert index k) ks x (λ j h. all j (ground (arith, h)))
      ∙ ground (arith, has-insert_or index k x))

  pub has-manifest : (index : List Bytes) (x : Bytes) → has (dedup (sort index)) x ≡ has index x
  has-manifest index x = has-dedup (sort index) x ∙ has-sort index x

  -- Where the service gives back the manifest of an index whose keys can stand on a line, the store
  -- then knows the keys that it knew and those of that index, and no others.
  pub has-load_index :
      (config : StoreConfig) (gha : GhaCache) (s : Store net fs) (r : State net)
      (index : List Bytes) (key : Bytes)
      → config.gha ≡ some gha
      → AllLines index
      → Gha.get_scoped net gha config.key_prefix config.scope (codes "index") s.remote
        ≡ (ok (some (manifest net fs index)), r)
      → has (load_index net fs config s).index key ≡ (has s.index key || has index key)
  has-load_index config gha s r index key client all answer =
      ap (λ (t : Store net fs). has t.index key) loaded
      ∙ unfold load_raw_index manifest in
        rw
          (
            from_utf8_lossy-valid (join 10 written) (utf8_valid-join written written-AllLines),
            lines-join written written-AllLines,
            has-insert_lines s.index written key written-AllLines,
            has-manifest index key,
          )
          refl
    where
      written : List Bytes
      written = dedup (sort index)

      written-AllLines : AllLines written
      written-AllLines k h = all k (sym (has-manifest index k) ∙ h)

      loaded :
          load_index net fs config s
          ≡ load_raw_index net fs (ok (some (manifest net fs index)), r) s
      loaded = unfold load_index in ground (arith, client, answer)
