-- ===== src/Store/Refinement.antt =====
-- The store as a map: what lookups and stores answer while nothing is fetched from the service.
use cicache.Prelude.{
  ◌≡◌, ◌⊎◌, inl, inr, refl, sym, ap, ◌∙◌, Bool, true, false, ◌||◌, Option, none, some, List, [],
  ◌∷◌, arith, Bool-cases, Option-cases, if◌then◌else◌,
}
use mathlib.Core.Path.{subst}
use cicache.Text.Utf8.{Bytes}
use cicache.Text.Compare.{same, same_iff}
use cicache.Text.Set.{has, insert, has-insert_or}
use cicache.Store.{Fs, FsLaws, StoreConfig, Store, get, get_remote, put, file_away}
use cicache.Gha.{Net}

-- The specification: a map in which the first value that is put under a key stays.
pub record Cache : Type 0 where
  pub value : Bytes → Option Bytes
  pub taken : Bytes → Bool

pub data Op : Type 0 where
  gets : Bytes → Op
  puts : (key bytes : Bytes) → Op

unfoldable pub put_once : Bytes → Bytes → Cache → Cache
put_once key bytes m = if m.taken key then m else record {
  value = λ k. if same key k then some bytes else m.value k;
  taken = λ k. m.taken k || same key k;
}

-- The answers to the lookups among the calls, in order.
unfoldable pub answers : List Op → Cache → List (Option Bytes)
answers [] m = []
answers (gets key ∷ ops) m = m.value key ∷ answers ops m
answers (puts key bytes ∷ ops) m = answers ops (put_once key bytes m)

module _ (net : Net) (fs : Fs) (config : StoreConfig) where
  unfoldable pub run : List Op → Store net fs → List (Option Bytes)
  run [] s = []
  run (gets key ∷ ops) s = let (found, s') = get net fs config key s in found ∷ run ops s'
  run (puts key bytes ∷ ops) s = run ops (put net fs config key bytes s)

  -- There is no client, or the manifest lists nothing.
  abbrev pub IsLocal : Store net fs → Type 0
  IsLocal s = (config.gha ≡ none) ⊎ ((key : Bytes) → has s.index key ≡ false)

  -- On the keys of a predicate, the files hold the values, and the set of queued keys is the one of
  -- those taken.
  pub record Represents (P : Bytes → Type 0) (s : Store net fs) (m : Cache) : Type 0 where
    pub local : IsLocal s
    pub reads : (key : Bytes) → P key → fs.read (fs.path key) s.disk ≡ m.value key
    pub queued : (key : Bytes) → has s.queued key ≡ m.taken key

  get_local :
      (key : Bytes) (s : Store net fs)
      → IsLocal s
      → get net fs config key s ≡ (fs.read (fs.path key) s.disk, s)
  unfolding get get_remote
  get_local key s (inl absent) = ground (arith, absent)
  get_local key s (inr unlisted) = elim (Option-cases config.gha) [
    | inl absent ↦ ground (arith, absent)
    | inr (gha, client) ↦ ground (arith, client, unlisted key)
  ]

  file_away-rest :
      (key bytes : Bytes) (s : Store net fs)
      → let s' = file_away net fs config key bytes s in
        (s'.disk ≡ s.disk) × (s'.queued ≡ s.queued) × (s'.index ≡ s.index)
  unfolding file_away
  file_away-rest key bytes s = ground arith

  -- Every key of the calls is one of the predicate.
  abbrev pub AllKeys : (Bytes → Type 0) → List Op → Type 0
  AllKeys P [] = Unit
  AllKeys P (gets key ∷ ops) = P key × AllKeys P ops
  AllKeys P (puts key bytes ∷ ops) = P key × AllKeys P ops

  module _ (laws : FsLaws fs) (P : Bytes → Type 0)
      (apart : (j k : Bytes) → P j → P k → fs.path j ≡ fs.path k → j ≡ k)
      (writes : (p : fs.File) (bytes : Bytes) (d : fs.Disk) → (fs.write p bytes d).0 ≡ true) where
    put-Represents :
        (key bytes : Bytes) (s : Store net fs) (m : Cache)
        → P key
        → Represents P s m
        → Represents P (put net fs config key bytes s) (put_once key bytes m)
    unfolding put put_once
    put-Represents key bytes s m p r = elim (Bool-cases (has s.queued key)) [
      | inl queued ↦ rw (queued, sym (r.queued key) ∙ queued) r
      | inr new ↦
          rw (new, sym (r.queued key) ∙ new)
            (let (disk, queued, index) = file_away-rest key bytes (record s {
              queued = insert s.queued key;
              disk = (fs.write (fs.path key) bytes s.disk).1;
            }) in
              record {
                local = elim r.local [
                  | inl absent ↦ inl absent
                  | inr unlisted ↦ inr (λ k. rw index (unlisted k))
                ];
                reads = λ k pk. rw disk (written k pk);
                queued = λ k. rw queued (has-insert_or s.queued key k ∙ rw (r.queued k) refl);
              })
    ]
      where
        written :
            (k : Bytes)
            → P k
            → fs.read (fs.path k) (fs.write (fs.path key) bytes s.disk).1
              ≡ (if same key k then some bytes else m.value k)
        written k pk = elim (Bool-cases (same key k)) [
          | inl own ↦ rw own (
              subst (λ j. fs.read (fs.path j) (fs.write (fs.path key) bytes s.disk).1 ≡ some bytes)
                ((same_iff key k).0 own)
                (laws.read_written (fs.path key) bytes s.disk (writes (fs.path key) bytes s.disk)))
          | inr other ↦ rw other (
              laws.read_other (fs.path key) (fs.path k) bytes s.disk
                (λ e. cc (other, (same_iff key k).1 (apart key k p pk e)))
              ∙ r.reads k pk)
        ]

    -- Over keys whose files are different, while every write succeeds and nothing is fetched, any
    -- lookups and stores answer as the map does in which the first value put under a key stays.
    pub run_refines :
        (ops : List Op) (s : Store net fs) (m : Cache)
        → AllKeys P ops
        → Represents P s m
        → run ops s ≡ answers ops m
    unfolding run answers
    run_refines [] s m all r = refl
    run_refines (gets key ∷ ops) s m (p, all) r =
        rw (get_local key s r.local, r.reads key p)
          (ap (λ t. m.value key ∷ t) (run_refines ops s m all r))
    run_refines (puts key bytes ∷ ops) s m (p, all) r =
        run_refines ops _ _ all (put-Represents key bytes s m p r)
