-- ===== src/Store/Instance.antt =====
-- A disk that holds the files written to it, the newest first.
use cicache.Prelude.{arith, true, Option, none, some, List, [], ◌∷◌, if◌then◌else◌}
use cicache.Text.Utf8.{Bytes, codes}
use cicache.Text.Compare.{same, same_refl, same_iff}
use cicache.Gha.Instance.{client}
use cicache.Store.{Fs, FsLaws, StoreConfig}

abbrev pub Files : Type 0
Files = List (Bytes × Bytes)

unfoldable pub look_up : Bytes → Files → Option Bytes
look_up p [] = none
look_up p ((name, bytes) ∷ files) =
    let rest = look_up p files in if same name p then some bytes else rest

abbrev pub files : Fs
files = record {
  Disk = Files;
  File = Bytes;
  path = λ key. key;
  read = look_up;
  write = λ p bytes d. (true, (p, bytes) ∷ d);
}

pub files-laws : FsLaws files
unfolding look_up
files-laws = record {
  read_written = λ p bytes d written. rw (same_refl p);
  read_other = λ p q bytes d other. ground (arith, other, same_iff p q);
}

abbrev pub config : StoreConfig
config = record {
  gha = some client;
  key_prefix = codes "v1";
  scope = codes "job";
  pack_threshold = 4;
  pack_limit = 1000;
  concurrency = 2;
}
