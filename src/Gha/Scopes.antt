-- ===== src/Gha/Scopes.antt =====
-- Which entries a scope's prefix finds.
use cicache.Prelude.{
  ℕ, ◌≡◌, refl, true, false, ◌++◌, arith, append_assoc, append_cancel_left, Bool-cases, inl, inr,
}
use cicache.Text.Utf8.{Bytes, codes}
use cicache.Text.Number.{decimal}
use cicache.Text.Search.{starts_with, starts_with_iff}
use cicache.Gha.{scoped_prefix, scoped_key}

-- The prefix that a later run asks for finds every entry of its scope and kind.
pub starts_with-scoped_key :
    (prefix scope kind : Bytes) (stamp : ℕ) (run_id : Bytes)
    → starts_with (scoped_key prefix scope kind stamp run_id) (scoped_prefix prefix scope kind)
      ≡ true
unfolding scoped_key
starts_with-scoped_key prefix scope kind stamp run_id =
    (starts_with_iff _ (scoped_prefix prefix scope kind)).1
      (decimal stamp ++ (codes "-" ++ run_id), refl)

-- The prefix of a scope also finds the entries of every scope that is longer by a dash and more.
pub longer_scope_is_found :
    (prefix scope more kind : Bytes) (stamp : ℕ) (run_id : Bytes)
    → starts_with
        (scoped_key prefix (scope ++ (codes "-" ++ more)) kind stamp run_id)
        (scoped_prefix prefix scope kind)
      ≡ true
unfolding scoped_key scoped_prefix
longer_scope_is_found prefix scope more kind stamp run_id =
    (starts_with_iff _ _).1
      (more ++ (codes "-" ++ (decimal stamp ++ (codes "-" ++ run_id))), (simp append_assoc))

-- Under one key prefix, the manifest's prefix never finds a pack, and the pack's never a manifest,
-- whatever the scopes, the times and the runs.
pub kinds_are_apart :
    (prefix scope scope' : Bytes) (stamp : ℕ) (run_id : Bytes)
    → (starts_with
          (scoped_key prefix scope (codes "pack") stamp run_id)
          (scoped_prefix prefix scope' (codes "index"))
        ≡ false)
      × (starts_with
            (scoped_key prefix scope (codes "index") stamp run_id)
            (scoped_prefix prefix scope' (codes "pack"))
          ≡ false)
unfolding scoped_key scoped_prefix
kinds_are_apart prefix scope scope' stamp run_id = (
  apart (codes "pack") (codes "index") (λ a b e. ground (arith, e)),
  apart (codes "index") (codes "pack") (λ a b e. ground (arith, e)),
)
  where
    apart :
        (kind kind' : Bytes)
        → ((a b : Bytes) → codes "-" ++ (kind ++ a) ≡ codes "-" ++ (kind' ++ b) → ⊥)
        → starts_with
            (scoped_key prefix scope kind stamp run_id)
            (scoped_prefix prefix scope' kind')
          ≡ false
    apart kind kind' differ =
        elim (Bool-cases (
          starts_with (scoped_key prefix scope kind stamp run_id)
            (scoped_prefix prefix scope' kind'))) [
              | inl found ↦
                  let (rest, e) = (starts_with_iff _ (scoped_prefix prefix scope' kind')).0 found in
                  absurd (
                    differ
                      (codes "-"
                        ++ (scope ++ (codes "-" ++ (decimal stamp ++ (codes "-" ++ run_id)))))
                      (codes "-" ++ (scope' ++ (codes "-" ++ rest)))
                      (append_cancel_left prefix _ _ (simp append_assoc at e)))
              | inr other ↦ other
            ]
