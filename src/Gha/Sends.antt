-- ===== src/Gha/Sends.antt =====
-- src/gha.rs: what `put_scoped` does to the service.
use cicache.Prelude.{ℕ, ◌≡◌, ◌⊎◌, inl, inr, refl, true, false, Bool-cases}
use cicache.Text.Utf8.{Bytes, codes}
use cicache.Gha.{Net, GhaCache, State, create, rpc, follow_create, scoped_key, put, put_scoped}

module _ (net : Net) where
  -- The body is offered to the service under a key of the scope, the client and the service going
  -- from `r` to `r'`: an entry is asked for and, where the answer gives a place to upload to, the body
  -- is uploaded and finalized. Once the client is exhausted nothing is asked.
  abbrev pub Sends :
      GhaCache → Bytes → Bytes → Bytes → Bytes → ℕ → Bytes → State net → State net → Type 0
  Sends c prefix scope kind body stamp run r r' =
      let key = scoped_key prefix scope kind stamp run in
      ((r.exhausted ≡ true) × (r' ≡ r))
      ⊎ ((r.exhausted ≡ false)
          × (r'
              ≡ (follow_create net c key body (
                  rpc net net.decode_create c (codes "CreateCacheEntry") (create key c.version)
                    r)).1))

  pub put_scoped-Sends :
      (c : GhaCache) (prefix scope kind body : Bytes) (stamp : ℕ) (run : Bytes) (r : State net)
      → Sends c prefix scope kind body stamp run r
          (put_scoped net c prefix scope kind body stamp run r).1
  unfolding put_scoped put
  put_scoped-Sends c prefix scope kind body stamp run r = elim (Bool-cases r.exhausted) [
    | inl over ↦ inl (over, rw over refl)
    | inr open_yet ↦ inr (open_yet, rw open_yet refl)
  ]
