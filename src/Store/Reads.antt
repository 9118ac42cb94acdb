-- ===== src/Store/Reads.antt =====
-- What `get` returns after a `put` or another `get`, and when it calls the service.
use cicache.Prelude.{
  ◌≡◌, ◌≢◌, inl, inr, refl, ◌∙◌, true, false, Option, none, some, arith, Bool-cases, Option-cases,
}
use cicache.Text.Utf8.{Bytes}
use cicache.Text.Set.{has, has-insert}
use cicache.Gha
use cicache.Gha.{Net, GhaCache, State, Result, ok, err}
use cicache.Store.{Fs, FsLaws, StoreConfig, Store, get, get_remote, keep_fetched, put, file_away}

module _ (net : Net) (fs : Fs) (config : StoreConfig) where
  keep_fetched-none :
      (key : Bytes) (r : Result (Option Bytes) × State net) (s : Store net fs)
      → (keep_fetched net fs key r s).0 ≡ none
      → (has (keep_fetched net fs key r s).1.remote_misses key ≡ true)
        × ((keep_fetched net fs key r s).1.disk ≡ s.disk)
  unfolding keep_fetched
  keep_fetched-none key (ok (some bytes), r) s h = cc
  keep_fetched-none key (ok none, r) s h = (has-insert s.remote_misses key, refl)
  keep_fetched-none key (err e, r) s h = (has-insert s.remote_misses key, refl)

  get_remote-missed :
      (gha : GhaCache) (key : Bytes) (s : Store net fs)
      → has s.remote_misses key ≡ true
      → get_remote net fs gha key s ≡ (none, s)
  unfolding get_remote
  get_remote-missed gha key s h = ground (arith, h)

  get_remote-again :
      (gha : GhaCache) (key : Bytes) (s : Store net fs)
      → (get_remote net fs gha key s).0 ≡ none
      → (get_remote net fs gha key (get_remote net fs gha key s).1
          ≡ (none, (get_remote net fs gha key s).1))
        × ((get_remote net fs gha key s).1.disk ≡ s.disk)
  get_remote-again gha key s h = elim (Bool-cases (has s.index key)) [
    | inr unlisted ↦ unfold get_remote in rw (unlisted, unlisted) (refl, refl)
    | inl listed ↦ elim (Bool-cases (has s.remote_misses key)) [
      | inl missed ↦
          rw (get_remote-missed gha key s missed) (get_remote-missed gha key s missed, refl)
      | inr asked ↦
          let (now_missed, kept) =
            keep_fetched-none key (Gha.get net gha key s.remote) s
              (unfold get_remote in rw (listed, asked) at h) in
          (
            get_remote-missed gha key _ (unfold get_remote in rw (listed, asked) now_missed),
            unfold get_remote in rw (listed, asked) kept,
          )
    ]
  ]

  pub get_found :
      (key bytes : Bytes) (s : Store net fs)
      → fs.read (fs.path key) s.disk ≡ some bytes
      → get net fs config key s ≡ (some bytes, s)
  unfolding get
  get_found key bytes s found = ground (arith, found)

  get_local :
      (key : Bytes) (s : Store net fs)
      → fs.read (fs.path key) s.disk ≡ none
      → config.gha ≡ none
      → get net fs config key s ≡ (none, s)
  unfolding get
  get_local key s absent local = ground (arith, absent, local)

  get_absent :
      (gha : GhaCache) (key : Bytes) (s : Store net fs)
      → fs.read (fs.path key) s.disk ≡ none
      → config.gha ≡ some gha
      → get net fs config key s ≡ get_remote net fs gha key s
  unfolding get
  get_absent gha key s absent client = ground (arith, absent, client)

  file_away-keeps :
      (key bytes : Bytes) (s : Store net fs)
      → ((file_away net fs config key bytes s).disk ≡ s.disk)
        × ((file_away net fs config key bytes s).queued ≡ s.queued)
  unfolding file_away
  file_away-keeps key bytes s = ground arith

  put-queued :
      (key bytes : Bytes) (s : Store net fs) → has (put net fs config key bytes s).queued key ≡ true
  unfolding put
  put-queued key bytes s = elim (Bool-cases (has s.queued key)) [
    | inl queued ↦ rw (queued, queued)
    | inr new ↦ rw (new, (file_away-keeps key bytes _).1, has-insert s.queued key)
  ]

  put_again :
      (key bytes : Bytes) (s : Store net fs)
      → has s.queued key ≡ true
      → put net fs config key bytes s ≡ s
  unfolding put
  put_again key bytes s queued = rw queued refl

  pub put-disk :
      (key bytes : Bytes) (s : Store net fs)
      → has s.queued key ≡ false
      → (put net fs config key bytes s).disk ≡ (fs.write (fs.path key) bytes s.disk).1
  unfolding put
  put-disk key bytes s new = rw new ((file_away-keeps key bytes _).0)

  -- A lookup that found nothing finds nothing the next time, and that one changes nothing: it makes
  -- no call.
  pub get_again :
      (key : Bytes) (s : Store net fs)
      → (get net fs config key s).0 ≡ none
      → get net fs config key (get net fs config key s).1 ≡ (none, (get net fs config key s).1)
  get_again key s h = elim (Option-cases (fs.read (fs.path key) s.disk)) [
    | inr (bytes, found) ↦ cc (get_found key bytes s found, h)
    | inl absent ↦ elim (Option-cases config.gha) [
      | inl local ↦ rw (get_local key s absent local) (get_local key s absent local)
      | inr (gha, client) ↦
          let (again, kept) =
            get_remote-again gha key s (rw (get_absent gha key s absent client) at h) in
          rw (get_absent gha key s absent client)
            (get_absent gha key _ (rw kept absent) client ∙ again)
    ]
  ]

  -- A lookup that changes the service's world or the client's flag is for a key with no file, that
  -- the manifest lists and no lookup has missed, in a job that has a client.
  pub get-remote :
      (key : Bytes) (s : Store net fs)
      → (get net fs config key s).1.remote ≢ s.remote
      → (fs.read (fs.path key) s.disk ≡ none)
        × (config.gha ≢ none)
        × (has s.index key ≡ true)
        × (has s.remote_misses key ≡ false)
  get-remote key s h = unfold get get_remote in ground (arith, h)

  -- A key is queued once: whatever is put under it later changes nothing.
  pub put-put :
      (key bytes bytes' : Bytes) (s : Store net fs)
      → put net fs config key bytes' (put net fs config key bytes s) ≡ put net fs config key bytes s
  put-put key bytes bytes' s = put_again key bytes' _ (put-queued key bytes s)

  -- Once what was put under a new key is written, a lookup of the key returns it, and changes
  -- nothing: it makes no call.
  pub get-put :
      (laws : FsLaws fs) (key bytes : Bytes) (s : Store net fs)
      → has s.queued key ≡ false
      → (fs.write (fs.path key) bytes s.disk).0 ≡ true
      → get net fs config key (put net fs config key bytes s)
        ≡ (some bytes, put net fs config key bytes s)
  get-put laws key bytes s new written =
      get_found key bytes _
        (rw (put-disk key bytes s new) (laws.read_written (fs.path key) bytes s.disk written))
