-- ===== src/Gha/Tests.antt =====
-- The theorems on the client at a small service.
use cicache.Prelude.{◌≡◌, ◌↔◌, refl, true, false, none, some, [], ◌∷◌, ◌++◌}
use cicache.Text.Utf8.{codes}
use cicache.Text.Compare.{same}
use cicache.Text.Search.{strip_prefix, starts_with, contains, ends_with}
use cicache.Text.Number.{decimal}
use cicache.Gha.{
  ok, State, rpc, read_answer, put, get, fetch, follow_download, read_blob, follow_create,
  finish_upload, scoped_prefix, scoped_key, from_env, entry_format_version,
}
use cicache.Gha.Laws.{puts, gets, run, rate_limit_is_final, IsStored, put_iff}
use cicache.Gha.Scopes.{longer_scope_is_found}
use cicache.Gha.Instance.{site, client}

runs : Unit {0}
unfolding rpc read_answer put get fetch follow_download read_blob follow_create finish_upload
    decimal same contains strip_prefix ends_with from_env scoped_prefix scoped_key
runs = tt

abbrev up : State site
up = record { world = record { status = 200; calls = 0; held = none }; exhausted = false }

abbrev limited : State site
limited = record { world = record { status = 429; calls = 0; held = none }; exhausted = false }

stored_and_fetched :
    ((put site client (codes "k") (codes "body") up).0 ≡ ok true)
    × ((get site client (codes "k") (put site client (codes "k") (codes "body") up).1).0
        ≡ ok (some (codes "body")))
unfolding runs
stored_and_fetched = (refl, refl)

limited_store : (put site client (codes "k") (codes "body") limited).1.exhausted ≡ true
unfolding runs
limited_store = refl

base_gets_a_slash :
    from_env (λ t. t) true (some (codes "http://s")) (some (codes "t"))
    ≡ some (record { base = codes "http://s/"; token = codes "t"; version = entry_format_version })
unfolding runs
base_gets_a_slash = refl

rate_limit_is_final_example :
    run site client
      (put site client (codes "k") (codes "body") limited).1
      (gets (codes "k") ∷ puts (codes "j") [] ∷ [])
    ≡ record { world = record { status = 429; calls = 1; held = none }; exhausted = true }
rate_limit_is_final_example =
    rate_limit_is_final site client limited (codes "k") (codes "body")
      (record { status = 429; text = codes "{}" }) (record { status = 429; calls = 1; held = none })
      (gets (codes "k") ∷ puts (codes "j") [] ∷ []) refl refl refl

put_iff_example :
    ((put site client (codes "k") (codes "body") up).0 ≡ ok true)
    ↔ IsStored site client (codes "k") (codes "body") up
put_iff_example = put_iff site client (codes "k") (codes "body") up

longer_scope_is_found_example :
    starts_with
      (scoped_key
        (codes "p")
        (codes "linux" ++ (codes "-" ++ codes "musl"))
        (codes "pack")
        17
        (codes "1"))
      (scoped_prefix (codes "p") (codes "linux") (codes "pack"))
    ≡ true
longer_scope_is_found_example =
    longer_scope_is_found (codes "p") (codes "linux") (codes "musl") (codes "pack") 17 (codes "1")
