-- ===== src/Store/RoundTripTests.antt =====
-- The manifest and the pack, read back from a service that holds them.
use cicache.Prelude.{none, ◌≡◌, refl, false, some, List, [], ◌∷◌, arith, ◌↔◌, Bool-cases, inl, inr}
use mathlib.Core.Path.{subst}
use cicache.Text.Utf8.{Bytes, codes, utf8_valid}
use cicache.Text.Compare.{same, same_iff}
use cicache.Text.Lines.{is_blank, join}
use cicache.Text.Lines.Laws.{IsLine, AllLines, lacks}
use cicache.Text.Sort.{sort, dedup, insert_sorted, le_bytes}
use cicache.Text.Set.{has}
use cicache.Pack
use cicache.Pack.{Object, Run, returned}
use cicache.Pack.Laws.{AllStorable, total_len}
use cicache.Gha
use cicache.Gha.{State, rpc, read_answer, fetch, follow_download, read_blob}
use cicache.Gha.Instance.{site}
use cicache.Store.{Store, new, manifest}
use cicache.Store.KeySet.{SameKeys, manifest_iff}
use cicache.Store.Refinement.{Cache, Op, gets, puts, put_once, run, answers, run_refines}
use cicache.Store.Instance.{look_up, files, files-laws, config}

runs : Unit {0}
unfolding rpc read_answer fetch follow_download read_blob Gha.get_scoped new same has manifest
    utf8_valid is_blank lacks total_len sort dedup insert_sorted le_bytes join
runs = tt

abbrev holding : Bytes → State site
holding bytes = record {
  world = record { status = 200; calls = 0; held = some bytes };
  exhausted = false;
}

abbrev fetched : Bytes → State site
fetched bytes = record {
  world = record { status = 200; calls = 1; held = some bytes };
  exhausted = false;
}

abbrev index : List Bytes
index = codes "v1-b" ∷ codes "v1-a" ∷ []

b-IsLine : IsLine (codes "v1-b")
unfolding runs
b-IsLine = record { text = refl; one_line = refl; no_return = refl; printed = refl }

a-IsLine : IsLine (codes "v1-a")
unfolding runs
a-IsLine = record { text = refl; one_line = refl; no_return = refl; printed = refl }

index-AllLines : AllLines index
unfolding runs
index-AllLines k h = elim (Bool-cases (same (codes "v1-b") k)) [
  | inl own ↦ subst IsLine ((same_iff (codes "v1-b") k).0 own) b-IsLine
  | inr other ↦ subst IsLine ((same_iff (codes "v1-a") k).0 (ground (arith, h, other))) a-IsLine
]

-- The same keys in another order, one of them twice.
abbrev shuffled : List Bytes
shuffled = codes "v1-a" ∷ codes "v1-b" ∷ codes "v1-a" ∷ []

shuffled-AllLines : AllLines shuffled
unfolding runs
shuffled-AllLines k h = elim (Bool-cases (same (codes "v1-b") k)) [
  | inl own ↦ subst IsLine ((same_iff (codes "v1-b") k).0 own) b-IsLine
  | inr other ↦ subst IsLine ((same_iff (codes "v1-a") k).0 (ground (arith, h, other))) a-IsLine
]

manifest_iff_example :
    (manifest site files index ≡ manifest site files shuffled) ↔ SameKeys index shuffled
manifest_iff_example = manifest_iff site files index shuffled index-AllLines shuffled-AllLines

abbrev small : Object
small = record { key = codes "k"; body = codes "abc" }

small-AllStorable : AllStorable (small ∷ [])
unfolding runs
small-AllStorable = (record { text = refl; key_fits = omega arith; body_fits = omega arith }, tt)

abbrev cold : Store site files
cold = new site files [] (holding (Pack.encode (small ∷ []) 1000))

abbrev calls : List Op
calls =
    gets (codes "k")
    ∷ puts (codes "k") (codes "abc")
    ∷ puts (codes "k") (codes "d")
    ∷ gets (codes "k")
    ∷ []

abbrev nothing : Cache
nothing = record { value = λ k. none; taken = λ k. false }

run_refines_example : run site files config calls cold ≡ answers calls nothing
unfolding runs look_up
run_refines_example =
    run_refines site files config files-laws (λ k. Unit) (λ j. λ k. λ p. λ q. λ e. e)
      (λ p. λ bytes. λ d. refl) calls cold nothing (tt, (tt, (tt, (tt, tt))))
      (record { local = inr (λ k. refl); reads = λ k. λ p. refl; queued = λ k. refl })

-- The value put first is the answer.
puts_kept : answers calls nothing ≡ none ∷ some (codes "abc") ∷ []
unfolding answers put_once same
puts_kept = refl
