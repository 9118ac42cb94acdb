-- ===== src/Store.antt =====
-- src/store.rs: the local directory, the manifest, the pack and the queue of uploads.
-- The file system is a parameter, and so is the service (`Net`). A `DashSet` is a list that is
-- used as a set. What only goes to standard error is left out.
pub mod Uploads
pub mod Reads
pub mod Queue
pub mod Manifest
pub mod KeySet
pub mod Kept
pub mod Carried
pub mod Underway
pub mod ManifestSent
pub mod Listed
pub mod Unpacking
pub mod Refinement
pub mod Drain
pub mod Declined
pub mod Instance
mod Tests
mod RoundTripTests
use cicache.Prelude.{
  ◌≡◌, ◌≢◌, ℕ, zero, suc, ◌+◌, Bool, true, false, ◌||◌, not, Option, none, some, List, [], ◌∷◌,
  ◌++◌, length, ltb, if◌then◌else◌,
}
use cicache.Text.Utf8.{Bytes, codes, from_utf8_lossy}
use cicache.Text.Lines.{lines, join, is_blank}
use cicache.Text.Sort.{sort, dedup}
use cicache.Text.Set.{has, insert}
use cicache.Stats.{Summary, zero_summary, record_packed}
use cicache.Pack
use cicache.Pack.{Object, Run, returned, panicked, out_of_fuel}
use cicache.Gha
use cicache.Gha.{Net, GhaCache, State, Result, ok, err}

-- Reading and writing a file under the directory of the objects. A write that fails may leave the
-- disk changed.
pub record Fs : Type 1 where
  pub Disk : Type 0
  pub File : Type 0
  -- `objects.join`.
  pub path : Bytes → File
  pub read : File → Disk → Option Bytes
  pub write : File → Bytes → Disk → Bool × Disk

-- What is documented of the file system here: a file that was written reads as what was written,
-- and a call that writes one file changes no other.
pub record FsLaws (fs : Fs) : Type 0 where
  pub read_written :
      (p : fs.File) (bytes : Bytes) (d : fs.Disk)
      → (fs.write p bytes d).0 ≡ true
      → fs.read p (fs.write p bytes d).1 ≡ some bytes
  pub read_other :
      (p q : fs.File) (bytes : Bytes) (d : fs.Disk)
      → p ≢ q
      → fs.read q (fs.write p bytes d).1 ≡ fs.read q d

-- `StoreConfig`, and the client where there is one.
pub record StoreConfig : Type 0 where
  pub gha : Option GhaCache
  pub key_prefix : Bytes
  pub scope : Bytes
  pub pack_threshold : ℕ
  pub pack_limit : ℕ
  pub concurrency : ℕ

module _ (net : Net) (fs : Fs) where
  -- `is_open` is whether the sender is still there, `channel` what was sent and not yet received,
  -- and `tasks` the uploads that hold a permit.
  pub record Store : Type 0 where
    pub disk : fs.Disk
    pub remote : State net
    pub counts : Summary
    pub remote_misses : List Bytes
    pub queued : List Bytes
    pub index : List Bytes
    pub index_dirty : Bool
    pub packed : List Bytes
    pub pack_dirty : Bool
    pub is_open : Bool
    pub channel : List Object
    pub tasks : List Object

  unfoldable pub new : fs.Disk → State net → Store
  new disk remote = record {
    disk = disk;
    remote = remote;
    counts = zero_summary;
    remote_misses = [];
    queued = [];
    index = [];
    index_dirty = false;
    packed = [];
    pack_dirty = false;
    is_open = true;
    channel = [];
    tasks = [];
  }

  unfoldable pub keep_written : Bytes → Bool × fs.Disk → Store → Store
  keep_written key (true, disk) s = record s { disk = disk; packed = insert s.packed key }
  keep_written key (false, disk) s = record s { disk = disk }

  -- The loop of `load_pack`.
  unfoldable pub unpack : List Object → Store → Store
  unpack [] s = s
  unpack (o ∷ objects) s =
      unpack objects (keep_written o.key (fs.write (fs.path o.key) o.body s.disk) s)

  unfoldable pub unpack_decoded : Run (Pack.Result (List Object)) → Store → Run Store
  unpack_decoded (returned (Pack.Result.ok objects)) s = returned (unpack objects s)
  unpack_decoded (returned (Pack.Result.err e)) s = returned s
  unpack_decoded panicked s = panicked
  unpack_decoded out_of_fuel s = out_of_fuel

  unfoldable pub load_raw_pack : Result (Option Bytes) × State net → Store → Run Store
  load_raw_pack (ok (some raw), r) s = unpack_decoded (Pack.decode raw) (record s { remote = r })
  load_raw_pack (ok none, r) s = returned (record s { remote = r })
  load_raw_pack (err e, r) s = returned (record s { remote = r })

  unfoldable pub load_pack : StoreConfig → Store → Run Store
  load_pack config s = elim config.gha [
    | none ↦ returned s
    | some gha ↦
        load_raw_pack
          (Gha.get_scoped net gha config.key_prefix config.scope (codes "pack") s.remote) s
  ]

  -- The objects of those keys whose files can be read.
  unfoldable pub read_objects : fs.Disk → List Bytes → List Object
  read_objects disk [] = []
  read_objects disk (key ∷ keys) =
      let rest = read_objects disk keys in
      elim (fs.read (fs.path key) disk) [
        | none ↦ rest
        | some body ↦ record { key = key; body = body } ∷ rest
      ]

  unfoldable pub pack_written : ℕ → ℕ → Result Bool × State net → Store → Store
  pack_written objects size (ok stored, r) s = record s {
    remote = r;
    counts = record_packed s.counts objects size;
  }
  pack_written objects size (err e, r) s = record s { remote = r }

  unfoldable pub write_pack : StoreConfig → GhaCache → ℕ → Bytes → List Object → Store → Store
  write_pack config gha stamp run_id [] s = s
  write_pack config gha stamp run_id (o ∷ objects) s =
      let body = Pack.encode (o ∷ objects) config.pack_limit in
      pack_written (length (o ∷ objects)) (length body)
        (Gha.put_scoped net gha config.key_prefix config.scope (codes "pack") body stamp run_id
          s.remote)
        s

  -- `stamp` and `run_id` are the clock and the run's id, which `put_scoped` reads.
  unfoldable pub save_pack : StoreConfig → ℕ → Bytes → Store → Store
  save_pack config stamp run_id s = elim config.gha [
    | none ↦ s
    | some gha ↦
        if not s.pack_dirty
        then s
        else write_pack config gha stamp run_id (read_objects s.disk (sort s.packed)) s
  ]

  unfoldable pub insert_lines : List Bytes → List Bytes → List Bytes
  insert_lines index [] = index
  insert_lines index (line ∷ rest) =
      insert_lines (if not (is_blank line) then insert index line else index) rest

  unfoldable pub load_raw_index : Result (Option Bytes) × State net → Store → Store
  load_raw_index (ok (some raw), r) s = record s {
    remote = r;
    index = insert_lines s.index (lines (from_utf8_lossy raw));
  }
  load_raw_index (ok none, r) s = record s { remote = r }
  load_raw_index (err e, r) s = record s { remote = r }

  unfoldable pub load_index : StoreConfig → Store → Store
  load_index config s = elim config.gha [
    | none ↦ s
    | some gha ↦
        load_raw_index
          (Gha.get_scoped net gha config.key_prefix config.scope (codes "index") s.remote) s
  ]

  -- The manifest's text.
  unfoldable pub manifest : List Bytes → Bytes
  manifest index = join 10 (dedup (sort index))

  unfoldable pub save_index : StoreConfig → ℕ → Bytes → Store → Store
  save_index config stamp run_id s = elim config.gha [
    | none ↦ s
    | some gha ↦ if not s.index_dirty then s else record s {
      remote =
          (Gha.put_scoped net gha config.key_prefix config.scope (codes "index") (manifest s.index)
            stamp run_id s.remote).1;
    }
  ]

  unfoldable pub keep_fetched :
      Bytes → Result (Option Bytes) × State net → Store → Option Bytes × Store
  keep_fetched key (ok (some bytes), r) s =
      (some bytes, record s { disk = (fs.write (fs.path key) bytes s.disk).1; remote = r })
  keep_fetched key (ok none, r) s =
      (none, record s { remote = r; remote_misses = insert s.remote_misses key })
  keep_fetched key (err e, r) s =
      (none, record s { remote = r; remote_misses = insert s.remote_misses key })

  unfoldable pub get_remote : GhaCache → Bytes → Store → Option Bytes × Store
  get_remote gha key s =
      if not (has s.index key)
      then (none, s)
      else if has s.remote_misses key
      then (none, s)
      else keep_fetched key (Gha.get net gha key s.remote) s

  unfoldable pub get : StoreConfig → Bytes → Store → Option Bytes × Store
  get config key s = elim (fs.read (fs.path key) s.disk) [
    | some bytes ↦ (some bytes, s)
    | none ↦ elim config.gha [ none ↦ (none, s) | some gha ↦ get_remote gha key s ]
  ]

  -- Where the object goes once its file is written.
  unfoldable pub file_away : StoreConfig → Bytes → Bytes → Store → Store
  file_away config key bytes s =
      if ltb (length bytes) config.pack_threshold
      then record s {
        packed = insert s.packed key;
        pack_dirty = not (has s.packed key) || s.pack_dirty;
      }
      else if s.is_open
      then record s { channel = s.channel ++ record { key = key; body = bytes } ∷ [] }
      else s

  unfoldable pub put : StoreConfig → Bytes → Bytes → Store → Store
  put config key bytes s =
      if has s.queued key
      then s
      else file_away config key bytes (record s {
        queued = insert s.queued key;
        disk = (fs.write (fs.path key) bytes s.disk).1;
      })
