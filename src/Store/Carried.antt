-- ===== src/Store/Carried.antt =====
-- What one job packs, the next one finds: the pack that `flush` offers, and the store that reads it.
use cicache.Prelude.{
  ℕ, ◌+◌, ◌^◌, ◌≤◌, ◌<◌, ◌≡◌, ◌⊎◌, refl, sym, ap, ◌∙◌, Bool, true, false, Option, none, some, List,
  [], ◌∷◌, arith, length, Bool-cases, Option-cases, inl, inr,
}
use mathlib.Core.Path.{subst}
use cicache.Text.Utf8.{Bytes, codes}
use cicache.Text.Compare.{same, same_iff}
use cicache.Text.Set.{has}
use cicache.Text.Sort.{sort}
use cicache.Text.Sort.Laws.{has-sort}
use cicache.Pack
use cicache.Pack.{Object, returned}
use cicache.Pack.Laws.{AllStorable, total_len, decode-encode}
use cicache.Gha
use cicache.Gha.{Net, GhaCache, State, Result, ok, err}
use cicache.Gha.Sends.{Sends, put_scoped-Sends}
use cicache.Store.{
  Fs, FsLaws, StoreConfig, Store, read_objects, unpack, unpack_decoded, load_raw_pack, load_pack,
  keep_written, save_pack, write_pack, pack_written,
}
use cicache.Store.Kept.{IsKept}
use cicache.Store.Declined.{keys}

module _ (net : Net) (fs : Fs) where
  -- Every object of the list with the key has the body.
  abbrev pub AllRaw : Bytes → Bytes → List Object → Type 0
  AllRaw key raw [] = Unit
  AllRaw key raw (o ∷ os) = (o.key ≡ key → o.body ≡ raw) × AllRaw key raw os

  read_objects-AllRaw :
      (key raw : Bytes) (disk : fs.Disk) (ks : List Bytes)
      → fs.read (fs.path key) disk ≡ some raw
      → AllRaw key raw (read_objects net fs disk ks)
  unfolding read_objects
  read_objects-AllRaw key raw disk [] file = tt
  read_objects-AllRaw key raw disk (k ∷ ks) file =
      go (fs.read (fs.path k) disk) refl (read_objects-AllRaw key raw disk ks file)
    where
      go :
          (found : Option Bytes)
          → fs.read (fs.path k) disk ≡ found
          → AllRaw key raw (read_objects net fs disk ks)
          → AllRaw key raw (read_objects net fs disk (k ∷ ks))
      go none e rest = rw (read_objects, e) rest
      go (some body) e rest =
          rw (read_objects, e)
            (λ own. cc (subst (λ t. fs.read (fs.path t) disk ≡ some body) own e, file), rest)

  has-read_objects :
      (key raw : Bytes) (disk : fs.Disk) (ks : List Bytes)
      → fs.read (fs.path key) disk ≡ some raw
      → has ks key ≡ true
      → has (keys (read_objects net fs disk ks)) key ≡ true
  unfolding read_objects has keys
  has-read_objects key raw disk [] file held = cc
  has-read_objects key raw disk (k ∷ ks) file held = elim (Bool-cases (same k key)) [
    | inl own ↦
        let here : fs.read (fs.path k) disk ≡ some raw =
          subst (λ t. fs.read (fs.path t) disk ≡ some raw) (sym ((same_iff k key).0 own)) file in
        rw (read_objects, here) (ground (arith, own))
    | inr other ↦ elim (Option-cases (fs.read (fs.path k) disk)) [
      | inl absent ↦
          rw (read_objects, absent)
            (has-read_objects key raw disk ks file (ground (arith, held, other)))
      | inr (body, found) ↦
          rw (read_objects, found)
            (ground
              (arith, other, has-read_objects key raw disk ks file (ground (arith, held, other))))
    ]
  ]

  keep_written-disk :
      (k : Bytes) (w : Bool × fs.Disk) (s : Store net fs) → (keep_written net fs k w s).disk ≡ w.1
  unfolding keep_written
  keep_written-disk k (true, disk) s = refl
  keep_written-disk k (false, disk) s = refl

  -- The objects of the pack.
  abbrev pub pack_objects : Store net fs → List Object
  pack_objects s = read_objects net fs s.disk (sort s.packed)

  -- The pack of a store.
  abbrev pub pack_body : StoreConfig → Store net fs → Bytes
  pack_body config s = Pack.encode (pack_objects s) config.pack_limit

module _ (net : Net) (fs : Fs) (config : StoreConfig) (laws : FsLaws fs) (key raw : Bytes)
    (apart : (k : Bytes) → fs.path k ≡ fs.path key → k ≡ key)
    (writes : (p : fs.File) (bytes : Bytes) (d : fs.Disk) → (fs.write p bytes d).0 ≡ true) where
  -- After a pack that has the object is unpacked its file reads as the object.
  pub read-unpack :
      (os : List Object) (s : Store net fs)
      → AllRaw net fs key raw os
      → (has (keys os) key ≡ true) ⊎ (fs.read (fs.path key) s.disk ≡ some raw)
      → fs.read (fs.path key) (unpack net fs os s).disk ≡ some raw
  unfolding unpack has keys
  read-unpack [] s all (inl held) = cc
  read-unpack [] s all (inr file) = file
  read-unpack (o ∷ os) s (now, all) held =
      read-unpack os _ all (elim (Bool-cases (same o.key key)) [
        | inl own ↦
            let equal = (same_iff o.key key).0 own in
            inr (
              ap (fs.read (fs.path key)) (keep_written-disk net fs o.key _ s)
              ∙ subst
                  (λ t. fs.read (fs.path t) (fs.write (fs.path o.key) o.body s.disk).1 ≡ some raw)
                  equal
                  (laws.read_written (fs.path o.key) o.body s.disk (writes _ _ _)
                    ∙ ap some (now equal)))
        | inr other ↦ elim held [
          | inl among ↦ inl (ground (arith, among, other))
          | inr file ↦ inr (
              ap (fs.read (fs.path key)) (keep_written-disk net fs o.key _ s)
              ∙ laws.read_other (fs.path o.key) (fs.path key) o.body s.disk
                  (λ e. cc (other, (same_iff o.key key).1 (apart o.key e)))
              ∙ file)
        ]
      ])

  -- What the pack of these objects leaves.
  abbrev sent : GhaCache → ℕ → Bytes → Store net fs → List Object → Store net fs
  sent gha stamp run_id s os =
      pack_written net fs (length os) (length (Pack.encode os config.pack_limit))
        (Gha.put_scoped net gha config.key_prefix config.scope (codes "pack")
          (Pack.encode os config.pack_limit) stamp run_id s.remote)
        s

  write_pack-sent :
      (gha : GhaCache) (stamp : ℕ) (run_id : Bytes) (s : Store net fs) (os : List Object)
      → has (keys os) key ≡ true
      → write_pack net fs config gha stamp run_id os s ≡ sent gha stamp run_id s os
  unfolding write_pack has keys
  write_pack-sent gha stamp run_id s [] held = cc
  write_pack-sent gha stamp run_id s (o ∷ os) held = refl

  save_pack-sent :
      (gha : GhaCache) (stamp : ℕ) (run_id : Bytes) (s : Store net fs)
      → config.gha ≡ some gha
      → IsKept net fs key raw s
      → save_pack net fs config stamp run_id s ≡ sent gha stamp run_id s (pack_objects net fs s)
  unfolding save_pack
  save_pack-sent gha stamp run_id s client h = ground (
    arith,
    client,
    h.dirty,
    write_pack-sent gha stamp run_id s (pack_objects net fs s) (
        has-read_objects net fs key raw s.disk (sort s.packed) h.file
          (has-sort s.packed key ∙ h.packed)),
  )

  pack_written-remote :
      (objects size : ℕ) (r : Result Bool × State net) (s : Store net fs)
      → (pack_written net fs objects size r s).remote ≡ r.1
  unfolding pack_written
  pack_written-remote objects size (ok stored, r) s = refl
  pack_written-remote objects size (err e, r) s = refl

  -- Writing the pack of a store that keeps the object offers it.
  pub save_pack-Sends :
      (gha : GhaCache) (stamp : ℕ) (run_id : Bytes) (s : Store net fs)
      → config.gha ≡ some gha
      → IsKept net fs key raw s
      → Sends net gha config.key_prefix config.scope
          (codes "pack")
          (pack_body net fs config s)
          stamp
          run_id
          s.remote
          (save_pack net fs config stamp run_id s).remote
  save_pack-Sends gha stamp run_id s client h =
      subst
        (Sends net gha config.key_prefix config.scope (codes "pack") (pack_body net fs config s)
          stamp run_id s.remote)
        (sym (
          ap (λ (t : Store net fs). t.remote) (save_pack-sent gha stamp run_id s client h)
          ∙ pack_written-remote _ _ _ s))
        (put_scoped-Sends net gha _ _ _ _ stamp run_id s.remote)

  -- A store that reads a pack with the object has its file.
  pub read-load_pack :
      (gha : GhaCache) (t s : Store net fs) (r : State net)
      → config.gha ≡ some gha
      → IsKept net fs key raw t
      → AllStorable (pack_objects net fs t)
      → 4 + total_len (pack_objects net fs t) ≤ config.pack_limit
      → config.pack_limit < 2 ^ 63
      → Gha.get_scoped net gha config.key_prefix config.scope (codes "pack") s.remote
        ≡ (ok (some (pack_body net fs config t)), r)
      → (s' : Store net fs) × (load_pack net fs config s ≡ returned s')
        × (fs.read (fs.path key) s'.disk ≡ some raw)
  read-load_pack gha t s r client h storable fits small answer = (
    unpack net fs (pack_objects net fs t) (record s { remote = r }),
    unfold load_pack load_raw_pack unpack_decoded in
        ground (
          arith,
          client,
          answer,
          decode-encode (pack_objects net fs t) config.pack_limit storable fits small,
        ),
    read-unpack (pack_objects net fs t) (record s { remote = r })
        (read_objects-AllRaw net fs key raw t.disk (sort t.packed) h.file)
        (inl (
          has-read_objects net fs key raw t.disk (sort t.packed) h.file
            (has-sort t.packed key ∙ h.packed))),
  )
