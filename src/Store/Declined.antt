-- ===== src/Store/Declined.antt =====
-- What the manifest takes from uploads that the client declined, once it has given up on the
-- service.
use cicache.Prelude.{◌≡◌, refl, ◌∙◌, Bool, true, false, ◌||◌, some, List, [], ◌∷◌, ◌++◌, arith}
use cicache.Text.Utf8.{Bytes}
use mathlib.Core.Path.{subst}
use cicache.Text.Compare.{same, same_iff}
use cicache.Text.Set.{has, insert, has-insert, insert-keeps}
use cicache.Pack.{Object}
use cicache.Gha
use cicache.Gha.{Net, GhaCache, State, Result, ok, err}
use cicache.Store.{Fs, StoreConfig, Store}
use cicache.Store.Uploads.{
  upload_done, upload, Step, dropped, spawned, finished, Steps, done, then_step,
}

-- The keys of the objects that wait or have a task.
unfoldable pub keys : List Object → List Bytes
keys [] = []
keys (o ∷ os) = o.key ∷ keys os

pub has-keys-append :
    (os os' : List Object) (k : Bytes)
    → has (keys (os ++ os')) k ≡ (has (keys os) k || has (keys os') k)
unfolding has keys
has-keys-append [] os' k = refl
has-keys-append (o ∷ os) os' k = ground (arith, has-keys-append os os' k)

module _ (net : Net) (fs : Fs) (config : StoreConfig) where
  -- The key waits, has a task, or is in the manifest.
  unfoldable pub is_known : Store net fs → Bytes → Bool
  is_known s k = has (keys s.channel) k || (has (keys s.tasks) k || has s.index k)

  pub put-exhausted :
      (gha : GhaCache) (o : Object) (r : State net)
      → r.exhausted ≡ true
      → Gha.put net gha o.key o.body r ≡ (ok false, r)
  put-exhausted gha o r h = unfold Gha.put in ground (arith, h)

  same-insert :
      (index : List Bytes) (key k : Bytes) → same key k ≡ true → has (insert index key) k ≡ true
  same-insert index key k h =
      subst (λ j. has (insert index key) j ≡ true) ((same_iff key k).0 h) (has-insert index key)

  Step-exhausted :
      (gha : GhaCache) (s s' : Store net fs) (k : Bytes)
      → config.gha ≡ some gha
      → s.remote.exhausted ≡ true
      → Step net fs config s s'
      → (s'.remote ≡ s.remote) × (is_known s k ≡ true → is_known s' k ≡ true)
  unfolding is_known has keys
  Step-exhausted gha s _ k client gone (dropped _ o rest local e) =
      absurd (ground (arith, client, local))
  Step-exhausted gha s _ k client gone (spawned _ _ o rest c e free) =
      (refl, λ h. ground (arith, h, e, has-keys-append s.tasks (o ∷ []) k))
  Step-exhausted gha s _ k client gone (finished _ gha' before o others c e) =
      let declined = put-exhausted gha' o s.remote gone in
      (
        unfold upload upload_done in rw declined refl,
        λ h.
            unfold upload upload_done in
            rw declined (
              ground (
                arith,
                h,
                e,
                has-keys-append before (o ∷ others) k,
                has-keys-append before others k,
                same-insert s.index o.key k,
                insert-keeps s.index o.key k,
              )),
      )

  Steps-exhausted :
      (gha : GhaCache) {s s' : Store net fs} (k : Bytes)
      → config.gha ≡ some gha
      → s.remote.exhausted ≡ true
      → Steps net fs config s s'
      → (s'.remote ≡ s.remote) × (is_known s k ≡ true → is_known s' k ≡ true)
  Steps-exhausted gha k client gone (done s) = (refl, λ h. h)
  Steps-exhausted gha k client gone (then_step step rest) =
      let (same_remote, known) = Step-exhausted gha _ _ k client gone step in
      let (same_remote', known') = Steps-exhausted gha k client (rw same_remote gone) rest in
      (same_remote' ∙ same_remote, λ h. known' (known h))

  -- Once the client has given up on the service, the uploads that remain send nothing, and still
  -- every key that waited for one ends up in the manifest.
  pub exhausted-listed :
      (gha : GhaCache) {s s' : Store net fs} (k : Bytes)
      → config.gha ≡ some gha
      → s.remote.exhausted ≡ true
      → Steps net fs config s s'
      → s'.channel ≡ []
      → s'.tasks ≡ []
      → (has (keys s.channel) k || has (keys s.tasks) k) ≡ true
      → (s'.remote ≡ s.remote) × (has s'.index k ≡ true)
  exhausted-listed gha k client gone steps c t waits =
      let (same_remote, known) = Steps-exhausted gha k client gone steps in
      (
        same_remote,
        unfold is_known keys has in
            ground (arith, known (unfold is_known in ground (arith, waits)), c, t),
      )
