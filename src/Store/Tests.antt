-- ===== src/Store/Tests.antt =====
-- The store at a disk and a service that are at hand.
use cicache.Prelude.{◌≡◌, ◌≢◌, refl, ap, true, false, none, some, [], ◌∷◌, arith}
use cicache.Text.Utf8.{codes}
use cicache.Text.Compare.{same}
use cicache.Text.Set.{has, insert}
use cicache.Pack.{Object}
use cicache.Gha
use cicache.Gha.{
  State, rpc, read_answer, fetch, follow_download, read_blob, follow_create, finish_upload,
}
use cicache.Gha.Instance.{site, client}
use cicache.Store.{Store, new, get, get_remote, keep_fetched, put, file_away}
use cicache.Store.Uploads.{
  Step, spawned, finished, Steps, done, then_step, Flush, upload, upload_done,
}
use cicache.Store.Reads.{get-remote}
use cicache.Store.Drain.{work, length-steps, Flush-ends}
use cicache.Store.Declined.{keys, exhausted-listed}
use cicache.Store.Instance.{files, look_up, config}

runs : Unit {0}
unfolding rpc read_answer Gha.get Gha.put fetch follow_download read_blob follow_create
    finish_upload same has insert new get get_remote keep_fetched put file_away upload upload_done
    look_up keys work length-steps
runs = tt

abbrev up : State site
up = record {
  world = record { status = 200; calls = 0; held = some (codes "old") };
  exhausted = false;
}

abbrev gone : State site
gone = record { world = record { status = 200; calls = 0; held = none }; exhausted = true }

abbrev fresh : Store site files
fresh = new site files [] up

abbrev listed : Store site files
listed = record fresh { index = codes "k" ∷ [] }

abbrev big : Object
big = record { key = codes "k"; body = codes "bytes" }

abbrev waiting : Store site files
waiting = record (new site files [] gone) { channel = big ∷ [] }

-- A listed key is fetched and kept on disk; a key below the threshold goes to the pack.
fetched : (get site files config (codes "k") listed).0 ≡ some (codes "old")
unfolding runs
fetched = refl

packed_small : (put site files config (codes "s") (codes "abc") fresh).packed ≡ codes "s" ∷ []
unfolding runs
packed_small = refl

queued_big : (put site files config (codes "k") (codes "bytes") fresh).channel ≡ big ∷ []
unfolding runs
queued_big = refl

get-remote_example :
    (files.read (files.path (codes "k")) listed.disk ≡ none)
    × (config.gha ≢ none)
    × (has listed.index (codes "k") ≡ true)
    × (has listed.remote_misses (codes "k") ≡ false)
unfolding runs
get-remote_example =
    get-remote site files config (codes "k") listed
      (λ e. cc (ap (λ (r : State site). r.world.calls) e))

spawned_waiting : Step site files config waiting (record waiting { channel = []; tasks = big ∷ [] })
unfolding new
spawned_waiting = spawned waiting client big [] refl refl (omega arith)

abbrev declined : Store site files
declined = upload site files client big (record waiting { channel = [] })

uploaded_waiting : Steps site files config waiting declined
unfolding new
uploaded_waiting = then_step spawned_waiting (
    then_step
      (finished (record waiting { channel = []; tasks = big ∷ [] }) client [] big [] refl refl)
      (done declined))

Flush-ends_example : (s' : Store site files) × Flush site files config 5 (codes "1") waiting s'
unfolding new
Flush-ends_example = Flush-ends site files config 5 (codes "1") waiting (λ local. refl)

exhausted-listed_example :
    (declined.remote ≡ waiting.remote) × (has declined.index (codes "k") ≡ true)
unfolding runs
exhausted-listed_example =
    exhausted-listed site files config client (codes "k") refl refl uploaded_waiting refl refl refl
