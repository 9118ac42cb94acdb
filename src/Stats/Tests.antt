-- ===== src/Stats/Tests.antt =====
-- The counters after a short run.
use cicache.Prelude.{refl, ◌≡◌, List, [], ◌∷◌, true}
use cicache.Text.Utf8.{codes}
use cicache.Stats.{hit, stored, default, record_request, count, record_upload}
use cicache.Stats.Laws.{Call, requested, uploaded, step, run}

abbrev calls : List Call
calls =
    requested stored (codes "GET") (codes "https://a/b") 40000 12
    ∷ requested hit (codes "GET") (codes "https://a/b") 40000 0
    ∷ uploaded 40000 true
    ∷ []

two_requests : (run default calls).counts.requests ≡ 2
unfolding run step record_request count record_upload
two_requests = refl

one_upload : (run default calls).counts.bytes_uploaded ≡ 40000
unfolding run step record_request count record_upload
one_upload = refl
