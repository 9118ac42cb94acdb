-- ===== src/Cli/Run/Reported.antt =====
-- src/main.rs, over src/ca.rs and src/stats.rs: what the files that `run` leaves say of it.
use cicache.Prelude.{ℕ, ◌≡◌, ◌≢◌, ◌⊎◌, refl, sym, ap, ◌∙◌, Bool, true, Option, none, some}
use cicache.Text.Utf8.{Bytes, codes}
use cicache.Gha.{GhaCache}
use cicache.Gha
use cicache.Stats.{Summary}
use cicache.Store.{FsLaws, Store}
use cicache.Ca.{Ca}
use cicache.Proxy.Serving.{Setup, Proxy}
use cicache.Cli.Launch.{ProxyArgs}
use cicache.Cli.Run.{Ran, ran}
use cicache.Cli.Run.Process.{
  System, state_path, summary_path, Prepared, state_of, write_json, set, Outcome, failed_at,
  finished, IsUp, RunsTo, summarized, state_not_written,
}

module _ (sys : System) (laws : FsLaws sys.dir) where
  open sys use {certs, dir}

  read-write_json :
      (path : dir.File) (json : Option Bytes) (d d' : dir.Disk)
      → write_json sys path json d ≡ (true, d')
      → dir.read path d' ≡ json
  unfolding write_json
  read-write_json path none d d' e = absurd (cc e)
  read-write_json path (some json) d d' e =
      ap (λ t. dir.read path t.1) (sym e) ∙ laws.read_written path json d (ap (λ t. t.0) e)

  pub written-write_json :
      (path : dir.File) (json : Option Bytes) (d d' : dir.Disk)
      → write_json sys path json d ≡ (true, d')
      → (bytes : Bytes) × (json ≡ some bytes) × (dir.read path d' ≡ some bytes)
  written-write_json path none d d' e = absurd (unfold write_json in cc e)
  written-write_json path (some bytes) d d' e =
      (bytes, refl, read-write_json path (some bytes) d d' e)

  write_json_other :
      (path q : dir.File) (json : Option Bytes) (d d' : dir.Disk) (b : Bool)
      → path ≢ q
      → write_json sys path json d ≡ (b, d')
      → dir.read q d' ≡ dir.read q d
  unfolding write_json
  write_json_other path q none d d' b other e = sym (ap (λ t. dir.read q t.1) e)
  write_json_other path q (some json) d d' b other e =
      ap (λ t. dir.read q t.1) (sym e) ∙ laws.read_other path q json d other

  -- The files that `run` writes in the state directory are different ones.
  pub record AreApart : Type 0 where
    pub pem : dir.path (codes "ca.pem") ≢ state_path sys
    pub bundle : dir.path (codes "ca-bundle.pem") ≢ state_path sys
    pub summary : summary_path sys ≢ state_path sys

  module _ (apart : AreApart) (setup : Setup) (var : Bytes → Option Bytes) (gha : Option GhaCache)
      (a : ProxyArgs) where
    open setup use {net, fs, up}

    module _ (w : certs.World) (d : dir.Disk) (disk : fs.Disk) (remote : Gha.State net)
        (world : up.World) where
      -- `state.json` reads as before, or all that is needed to serve is there; then it holds the port
      -- that was bound, unless writing it is what failed.
      abbrev pub IsTold : dir.Disk → Outcome sys setup var gha a → Type 0
      IsTold d' out =
          (dir.read (state_path sys) d' ≡ dir.read (state_path sys) d)
          ⊎ ((p : Prepared sys) × (s : Store net fs) × (before : dir.Disk) × IsUp sys setup var gha
                a w d disk remote world p s before
              × ((out ≡ failed_at state_not_written)
                  ⊎ (dir.read (state_path sys) d' ≡ sys.state_json (state_of sys p))))

      -- What a run that gets to its end has done, and what its two files say.
      pub record IsDone (stamp : ℕ) (run_id : Bytes) (d' : dir.Disk) (p : Prepared sys)
          (q : Proxy (set sys setup var gha a)) (c : Summary) : Type 0 where
        pub runs : Ran (set sys setup var gha a) disk remote p.before world stamp run_id q c
        pub state :
            (json : Bytes) × (sys.state_json (state_of sys p) ≡ some json)
            × (dir.read (state_path sys) d' ≡ some json)
        pub summary :
            (json : Bytes) × (sys.summary_json c ≡ some json)
            × (dir.read (summary_path sys) d' ≡ some json)

      pub RunsTo-IsDone :
          (stamp : ℕ) (run_id : Bytes) (d' : dir.Disk) (p : Prepared sys)
          (q : Proxy (set sys setup var gha a)) (c : Summary)
          → RunsTo sys setup var gha a w d disk remote world stamp run_id d' (finished p q c)
          → IsDone stamp run_id d' p q c
      RunsTo-IsDone stamp run_id _ _ _ _
            (summarized p s d1 d2 d3 l m n e is_up wrote serves closes done) =
          let (json, text, now) = written-write_json _ _ d1 d2 wrote in
          record {
            runs = ran s l m n e is_up.opened serves closes;
            state = (json, text, write_json_other _ _ _ d2 d3 true apart.summary done ∙ now);
            summary = written-write_json _ _ d2 d3 done;
          }
