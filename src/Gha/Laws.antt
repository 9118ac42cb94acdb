-- ===== src/Gha/Laws.antt =====
-- Rate limiting, and what a successful `put` or `get` did.
use cicache.Prelude.{
  ℕ, ◌≡◌, ◌≢◌, ◌↔◌, refl, true, false, ◌||◌, not, Option, none, some, List, [], ◌∷◌, ◌++◌, arith,
  length, Bool-cases, inl, inr,
}
use cicache.Text.Utf8.{Bytes, codes}
use cicache.Text.Compare.{same, same_iff}
use cicache.Text.Number.{decimal}
use cicache.Gha.{
  create, finalize, CreateResponse, Answer, Net, Result, ok, err, is_success, GhaCache, service,
  State, rpc, fetch, get, get_scoped, put, follow_create, finish_upload, put_scoped,
}

module _ (net : Net) (c : GhaCache) where
  -- A call of the client, for any key, with the clock and the run's id where it reads them.
  pub data Call : Type 0 where
    gets : Bytes → Call
    gets_scoped : (prefix scope kind : Bytes) → Call
    puts : (key bytes : Bytes) → Call
    puts_scoped : (prefix scope kind body : Bytes) → ℕ → Bytes → Call

  unfoldable pub step : State net → Call → State net
  step s (gets key) = (get net c key s).1
  step s (gets_scoped prefix scope kind) = (get_scoped net c prefix scope kind s).1
  step s (puts key bytes) = (put net c key bytes s).1
  step s (puts_scoped prefix scope kind body stamp run_id) =
      (put_scoped net c prefix scope kind body stamp run_id s).1

  unfoldable pub run : State net → List Call → State net
  run s [] = s
  run s (call ∷ calls) = run (step s call) calls

  step-exhausted : (s : State net) (call : Call) → s.exhausted ≡ true → step s call ≡ s
  unfolding step get get_scoped put_scoped fetch put
  step-exhausted s (gets key) h = ground arith
  step-exhausted s (gets_scoped prefix scope kind) h = ground arith
  step-exhausted s (puts key bytes) h = ground arith
  step-exhausted s (puts_scoped prefix scope kind body stamp run_id) h = ground arith

  run-exhausted : (s : State net) (calls : List Call) → s.exhausted ≡ true → run s calls ≡ s
  unfolding run
  run-exhausted s [] h = refl
  run-exhausted s (call ∷ calls) h = rw (step-exhausted s call h) (run-exhausted s calls h)

  -- Once a reservation is answered with status 429, no later call of any kind reaches the service:
  -- whatever calls follow, the world is the one that the answer left.
  pub rate_limit_is_final :
      (s : State net) (key bytes : Bytes) (a : Answer) (w : net.World) (calls : List Call)
      → s.exhausted ≡ false
      → net.post
          (c.base ++ (service ++ (codes "/" ++ codes "CreateCacheEntry")))
          c.token
          (create key c.version)
          s.world
        ≡ (some a, w)
      → a.status ≡ 429
      → run (put net c key bytes s).1 calls ≡ record { world = w; exhausted = true }
  rate_limit_is_final s key bytes a w calls fresh answered limited =
      rw limited_put (run-exhausted (record { world = w; exhausted = true }) calls refl)
    where
      limited_put : (put net c key bytes s).1 ≡ record { world = w; exhausted = true }
      limited_put = unfold put follow_create rpc in ground (arith, fresh, answered)

  -- The three steps of an upload, each of which succeeded.
  pub record IsStored (key bytes : Bytes) (s : State net) : Type 0 where
    pub fresh : s.exhausted ≡ false
    pub resp : CreateResponse
    pub after_create : State net
    pub reserved :
        rpc net net.decode_create c (codes "CreateCacheEntry") (create key c.version) s
        ≡ (ok resp, after_create)
    pub allowed : resp.ok ≡ true
    pub offered : resp.signed_upload_url ≢ []
    pub status : ℕ
    pub after_upload : net.World
    pub uploaded :
        net.upload resp.signed_upload_url bytes after_create.world ≡ (some status, after_upload)
    pub accepted : is_success status ≡ true
    pub finalized :
        (rpc net net.decode_finalize c
          (codes "FinalizeCacheEntryUpload")
          (finalize key c.version (decimal (length bytes)))
          (record after_create { world = after_upload })).0
        ≡ ok true

  module _ (key bytes : Bytes) (s : State net) (fresh : s.exhausted ≡ false) where
    abbrev Reserved : Result CreateResponse × State net → Type 0
    Reserved r = rpc net net.decode_create c (codes "CreateCacheEntry") (create key c.version) s ≡ r

    uploaded-IsStored :
        (resp : CreateResponse) (s₁ : State net) (u : Option ℕ × net.World)
        → Reserved (ok resp, s₁)
        → resp.ok ≡ true
        → resp.signed_upload_url ≢ []
        → net.upload resp.signed_upload_url bytes s₁.world ≡ u
        → (finish_upload net c key (length bytes) u.0 (record s₁ { world = u.1 })).0 ≡ ok true
        → IsStored key bytes s
    uploaded-IsStored resp s₁ (none, w) r allowed offered e h = unfold finish_upload in cc h
    uploaded-IsStored resp s₁ (some status, w) r allowed offered e h =
        elim (Bool-cases (is_success status)) [
          | inl accepted ↦ record {
            fresh = fresh;
            resp = resp;
            after_create = s₁;
            reserved = r;
            allowed = allowed;
            offered = offered;
            status = status;
            after_upload = w;
            uploaded = e;
            accepted = accepted;
            finalized = unfold finish_upload in ground (arith, h, accepted);
          }
          | inr refused ↦ unfold finish_upload in cc (rw refused at h)
        ]

    created-IsStored :
        (r : Result CreateResponse × State net)
        → Reserved r
        → (follow_create net c key bytes r).0 ≡ ok true
        → IsStored key bytes s
    created-IsStored (err e, s₁) r h = unfold follow_create in ground (arith, h)
    created-IsStored (ok resp, s₁) r h =
        elim (Bool-cases (not resp.ok || same resp.signed_upload_url [])) [
          | inl declined ↦ unfold follow_create in ground (arith, declined, h)
          | inr offered ↦
              uploaded-IsStored resp s₁ (net.upload resp.signed_upload_url bytes s₁.world) r
                (ground (arith, offered))
                (ground (arith, offered, same_iff resp.signed_upload_url [])) refl
                (unfold follow_create in ground (arith, offered, h))
        ]

  -- A store succeeds exactly if the service is not given up on, the reservation is granted with a
  -- URL, the upload to that URL succeeds, and the service then confirms the entry at the length of
  -- what was uploaded.
  pub put_iff :
      (key bytes : Bytes) (s : State net)
      → ((put net c key bytes s).0 ≡ ok true) ↔ IsStored key bytes s
  put_iff key bytes s = (
    to,
    λ i.
        unfold put follow_create finish_upload in
        ground (
          arith,
          i.fresh,
          i.reserved,
          i.allowed,
          i.offered,
          i.uploaded,
          i.accepted,
          i.finalized,
          same_iff i.resp.signed_upload_url [],
        ),
  )
    where
      to : (put net c key bytes s).0 ≡ ok true → IsStored key bytes s
      to h = elim (Bool-cases s.exhausted) [
        | inl gone ↦ unfold put in cc (rw gone at h)
        | inr fresh ↦
            created-IsStored key bytes s fresh _ refl (unfold put in ground (arith, h, fresh))
      ]
