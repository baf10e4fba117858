-- ===== src/Lib.antt =====
-- A model of ludex, a tracker of the time spent in games on Linux: a daemon that notices games
-- starting and stopping, keeps their sessions in an SQLite database and shows them over D-Bus.
--
-- The parts, and the files that model them (paths from the repository's root):
-- - crates/ludex-core, the data: `Types` has the enumerations, `GameKey`, `Session`, `Application` and
--   the errors of src/types.rs, key.rs, session.rs, application.rs and error.rs. `Store` is the
--   database: the two tables as lists of rows, newest first, and one function for each method
--   of `SessionRepo` that changes them (src/repo/session.rs); `Store.Applications` has `create` and
--   `find_by_key` of `ApplicationRepo`, `Store.Edits` its other methods that change rows
--   (src/repo/application.rs). The constraints of migrations/*.sql
--   (the CHECK of the runtimes, the unique index on open sessions, the foreign key, the key of
--   `applications`) are tests that make a statement fail. A transaction that fails leaves the
--   database as it was. `SessionMerge` is src/session_merge.rs, the fold for display.
-- - crates/ludex-daemon/src/idle.rs: `Idle`, the tracker of the user's absence, and what of it is
--   charged to a session.
-- - crates/ludex-daemon/src/gate.rs: `Gate`, the decision whether a window's process is a game. /proc is
--   the record `Proc`, a parameter: what each read gives, or that it fails. `Text` has the string
--   functions that the gate uses.
-- - crates/ludex-daemon/src/sources/kwin: `Foreground`, transition.rs and the loop of source.rs. KWin,
--   the timer and the watcher of processes are the sequence of `Wake`s that the loop serves, so every
--   interleaving of them is a sequence.
-- - crates/ludex-daemon/src/session_manager.rs: `Manager`. Its state holds the database, the idle
--   tracker and the table of open sessions; `step` serves one input, `run` all of them and then
--   closes what is open. It calls `Store` and `Idle`, and takes the events that `Foreground` and `Steam` send.
-- - crates/ludex-daemon/src/sources/steam.rs: `Steam`, the source that scans the manifests at its start
--   and then follows the content log. Each `Wake` of its loop brings the bytes of the log at that time, so
--   growth, rotation and failed reads are sequences of wakes; the decoder of UTF-8 is a parameter.
-- - crates/ludex-core/src/vdf.rs: `Vdf`, over the functions on texts in `Text.Search`.
-- - crates/ludex-enrich: `Enrich` is the cascade of src/merge.rs and src/lib.rs over the answers of the
--   sources; `Enrich.Desktop`, `Enrich.Pe`, `Enrich.Gog`, `Enrich.Heroic`, `Enrich.Lutris` and `Enrich.SteamApp`
--   are the sources, from what the parsers of other packages make of the files on, and `Enrich.System` puts them
--   together.
-- - crates/ludex-core/src/repo/settings.rs: `Settings`, the table of texts and its typed accessors.
-- - crates/ludex-daemon/src/dbus.rs, config.rs and crates/ludex-core/src/repo/blocked.rs: `Tracker`, the state
--   that the service shares with the rest of the daemon and the requests that change it; the manager reads
--   its blocklist, the gate, the foreground source and the idle tracker its configuration.
-- - crates/ludex-daemon/src/proc: `Proc`, what the readers make of the files of /proc: `Proc.Environ`,
--   `Proc.Fdinfo`, `Proc.Maps` and `Proc.Tree`, whose answers are what `Gate` takes from its parameter `Proc`.
-- - crates/ludex-core/src/backup.rs: `Backups`, the names of snapshots, their listing and their pruning. The
--   directory is a list of files, and what becomes of each removal a parameter.
--
-- Numbers: an instant is a number of nanoseconds and a time stamp a number on one time line. Ids and runtimes
-- are `i64`s that the schema keeps from being negative; `saturating_add` stops at `i64::MAX`, as in
-- the code, and the difference of two `i64`s that may be negative is one of `Base.Int`. The aggregates of an application are sums without a bound, where SQLite would refuse a
-- sum beyond `i64::MAX`. Every loop goes over a list, but for two: the walk over the ancestors of a process takes
-- as many as its fuel, and the number of the ancestors is enough; the printing of a `u64` has the number of its digits
-- after the first as fuel, and 19 are enough, since 10^20 is beyond the greatest `u64`.
--
-- Simplifications: a hash map is a list of entries, so a loop over one goes in the order of the list;
-- the connection to the database does not fail on its own, the errors are those of the code and the
-- constraints; notifications and enrichment runs are collected as effects, and that a full channel may
-- drop one is left out; the logs are left out. The gap between two fragments of a session is compared as
-- whole seconds, where the code goes through a conversion to seconds as a float and back, taken as exact.
-- `set_backup_retention_count` stores the count; the pruning that it starts at once and the notice of it are left
-- out (the pruning itself is in `Backups`). In the loop of the Steam source no send fails, which would end the
-- loop. The foreign key of `applications.group_id` and the CHECK on the sums of an application refuse nothing.
--
-- Not modelled: the marshalling and the listing requests of the D-Bus interface, the command line, the graphical
-- application (app), the Wayland and logind watchers, the copying of backups, the loop of their scheduler, the
-- system calls of pidfds, and of the repositories the queries that only list rows. SQL's scalar `MAX` is NULL where
-- an operand is, as SQLite documents it.
pub mod Base
pub mod Types
pub mod SessionMerge
pub mod Store
pub mod Idle
pub mod Manager
pub mod Text
pub mod Gate
pub mod Foreground
pub mod Vdf
pub mod Steam
pub mod Enrich
pub mod Settings
pub mod Tracker
pub mod Backups
pub mod Proc
