-- ===== src/Cli/Keychain.antt =====
-- src/main.rs: `install_system_trust` and `remove_system_trust`, as the command they run and what
-- they print once it has ended.
use cicache.Prelude.{
  Bool, true, false, Option, none, some, List, [], ◌∷◌, ◌++◌, ◌==◌, if◌then◌else◌,
}
use cicache.Text.Utf8.{Bytes, codes}
use cicache.Ca.{ca_common_name}
use cicache.Cli.Waiting.{End, returned}

abbrev pub may_touch_system_trust : Bool → Option Bytes → Bool
may_touch_system_trust macos none = false
may_touch_system_trust macos (some github_actions) = macos

abbrev keychain : Bytes
keychain = codes "/Library/Keychains/System.keychain"

abbrev pub add_command : Bytes → List Bytes
add_command ca_path =
    codes "sudo"
    ∷ codes "-n"
    ∷ codes "security"
    ∷ codes "add-trusted-cert"
    ∷ codes "-d"
    ∷ codes "-r"
    ∷ codes "trustRoot"
    ∷ codes "-k"
    ∷ keychain
    ∷ ca_path
    ∷ []

abbrev pub delete_command : List Bytes
delete_command =
    codes "sudo"
    ∷ codes "-n"
    ∷ codes "security"
    ∷ codes "delete-certificate"
    ∷ codes "-c"
    ∷ ca_common_name
    ∷ codes "-t"
    ∷ keychain
    ∷ []

-- The command and what is printed, where the machine's trust store may be touched at all.
pub record Ran : Type 0 where
  pub command : Option (List Bytes)
  pub printed : List Bytes

abbrev pub untouched : Ran
untouched = record { command = none; printed = [] }

-- The exit status of a command that succeeds is 0.
unfoldable pub installed : End → Bytes
installed (returned status) =
    if status == 0
    then codes "cicache: added the CA to the system keychain"
    else codes
        "::warning title=cicache::could not add the CA to the system keychain; tools that verify through the platform will not reach the proxy"
installed e = codes "::warning title=cicache::security(1) did not finish; skipping"

unfoldable pub install_system_trust : Bool → Bytes → End → Ran
install_system_trust false ca_path e = untouched
install_system_trust true ca_path e = record {
  command = some (add_command ca_path);
  printed = installed e ∷ [];
}

unfoldable pub removed : End → List Bytes
removed (returned status) = []
removed e =
    (codes "::warning title=cicache::could not remove \""
      ++ (ca_common_name
          ++ codes "\" from the system keychain; on a self-hosted runner, delete it manually"))
    ∷ []

unfoldable pub remove_system_trust : Bool → End → Ran
remove_system_trust false e = untouched
remove_system_trust true e = record { command = some delete_command; printed = removed e }
