-- ===== src/Cli.antt =====
-- src/main.rs: the command line. Each part is modelled by the text it writes, the commands it gives
-- or the decisions it takes; the calls of the operating system are parameters or their results.
pub mod Curlrc
pub mod Waiting
pub mod Launch
pub mod Keychain
pub mod Report
pub mod Teardown
pub mod Run
pub mod Start
mod Tests
mod LaunchTests
mod TeardownTests
mod RunTests
mod NextJobTests
mod LargeNextJobTests
mod ProcessTests
mod StartTests
