-- ===== src/Store/KeySet.antt =====
-- src/store.rs: the manifest as a text of a set, whatever the order in which the set gives its keys.
use cicache.Prelude.{◌||◌, ◌≡◌, ◌↔◌, sym, ap, ◌∙◌, List, arith}
use mathlib.Core.Quot
use mathlib.Core.Quot.{Quot}
use cicache.Text.Utf8.{Bytes}
use cicache.Text.Compare.{same}
use cicache.Text.Lines.{join, lines}
use cicache.Text.Lines.Laws.{AllLines, lines-join}
use cicache.Text.Set.{has, insert, has-insert_or}
use cicache.Text.Sort.{sort, dedup}
use cicache.Text.Sort.Canonical.{dedup-sort_eq}
use cicache.Gha.{Net}
use cicache.Store.{Fs, manifest}
use cicache.Store.Manifest.{has-manifest}

-- Two lists have the same elements.
abbrev pub SameKeys : List Bytes → List Bytes → Type 0
SameKeys js ks = (x : Bytes) → has js x ≡ has ks x

-- A `DashSet`, of which the order of the keys is not known.
abbrev pub KeySet : Type 0
KeySet = Quot SameKeys

module _ (net : Net) (fs : Fs) where
  pub manifest-SameKeys :
      (js ks : List Bytes) → SameKeys js ks → manifest net fs js ≡ manifest net fs ks
  unfolding manifest
  manifest-SameKeys js ks h = ap (join 10) (dedup-sort_eq js ks h)

  -- The text that is written for a set.
  abbrev pub written : KeySet → Bytes
  written = Quot.lift (hlevel) (manifest net fs) manifest-SameKeys

  abbrev pub with_key : Bytes → KeySet → KeySet
  with_key key =
      Quot.lift Quot.Quot-set (λ ks. Quot.mk (insert ks key))
        (λ js ks h. Quot.sound (λ x.
          has-insert_or js key x ∙ ap (λ b. b || same key x) (h x) ∙ sym (has-insert_or ks key x)))

  -- The order in which two uploads file their keys is forgotten.
  with_key_comm : (j k : Bytes) (q : KeySet) → with_key j (with_key k q) ≡ with_key k (with_key j q)
  with_key_comm j k =
      Quot.ind (λ q. Quot.Quot-set _ _)
        (λ ks. Quot.sound (λ x. ground (
          arith,
          has-insert_or (insert ks k) j x,
          has-insert_or (insert ks j) k x,
          has-insert_or ks j x,
          has-insert_or ks k x,
        )))

  pub written_comm :
      (j k : Bytes) (q : KeySet)
      → written (with_key j (with_key k q)) ≡ written (with_key k (with_key j q))
  written_comm j k q = ap written (with_key_comm j k q)

  AllLines-manifest : (ks : List Bytes) → AllLines ks → lines (manifest net fs ks) ≡ dedup (sort ks)
  unfolding manifest
  AllLines-manifest ks all =
      lines-join (dedup (sort ks)) (λ k h. all k (sym (has-manifest net fs ks k) ∙ h))

  -- The manifest's text is one for a set of keys, in whatever order the set gives them, and no other
  -- set whose keys can stand on a line has it.
  pub manifest_iff :
      (js ks : List Bytes)
      → AllLines js
      → AllLines ks
      → (manifest net fs js ≡ manifest net fs ks) ↔ SameKeys js ks
  manifest_iff js ks all_js all_ks = (
    λ e x.
        sym (has-manifest net fs js x)
        ∙ ap (λ t. has t x)
            (sym (AllLines-manifest js all_js) ∙ ap lines e ∙ AllLines-manifest ks all_ks)
        ∙ has-manifest net fs ks x,
    manifest-SameKeys js ks,
  )
