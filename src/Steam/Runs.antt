-- ===== src/Steam/Runs.antt =====
-- crates/ludex-daemon/src/sources/steam.rs: the source from its first scan to the shutdown.
use ludex.Base.{
  ℕ, refl, not, ◌&&◌, Option, none, some, List, [], ◌∷◌, String, arith, Bool-cases, inl, inr, ◌==◌,
  nat_eq, string_eq, take,
}
use ludex.Base.Table.{contains}
use ludex.Text.Search.{split_inclusive, strip_prefix}
use ludex.Vdf.{parse_top_level_string}
use ludex.Steam.{
  Source, Decoder, Wake, Startup, DirEntry, drain_lines, drain_from, drained, drain_or_keep,
  rotated, chunk, consumed, resolve_name, poll, run, is_appid, is_live, name_or, scan_manifest,
  scan_file, scan_dir, cold_start_scan_with, live_steam_appids, started_game, fresh, start_cursor,
  without_suffix,
}
use ludex.Steam.Trace.{Tracks, rest, begins, Leads, Leads-refl, Leads-trans, read_lines-Leads}

module _ (from_utf8 : Decoder) where
  drained-Leads :
      (names : String → String) (at : ℕ) (text : Option String) (cursor count : ℕ) (s : Source)
      → Leads s (drained names at text cursor count s).1
  drained-Leads names at none cursor count s = Leads-refl s
  drained-Leads names at (some text) cursor count s =
      read_lines-Leads names at (split_inclusive b'\n' text) s

  drain_from-Leads :
      (names : String → String) (at : ℕ) (file : List ℕ) (cursor : ℕ) (s : Source)
      → Leads s (drain_from from_utf8 names at file cursor s).1
  drain_from-Leads names at file cursor s =
      let count = consumed (chunk file cursor) in
      elim (Bool-cases (count == 0)) [
        | inl e ↦ rw e (Leads-refl s)
        | inr e ↦
            rw e
              (drained-Leads names at (from_utf8 (take count (chunk file cursor))) cursor count s)
      ]

  drain_or_keep-Leads :
      (names : String → String) (at : ℕ) (file : Option (List ℕ)) (cursor : ℕ) (s : Source)
      → Leads s (drain_or_keep from_utf8 names at file (cursor, s)).1
  unfolding drain_or_keep drain_lines
  drain_or_keep-Leads names at none cursor s = Leads-refl s
  drain_or_keep-Leads names at (some file) cursor s =
      drain_from-Leads names at file (rotated file cursor) s

  poll-Leads :
      (wakes : List Wake) (cursor : ℕ) (s : Source) → Leads s (poll from_utf8 wakes (cursor, s)).1
  unfolding poll
  poll-Leads [] cursor s = Leads-refl s
  poll-Leads (w ∷ wakes) cursor s =
      let next = drain_or_keep from_utf8 (resolve_name w.manifests) w.at w.log (cursor, s) in
      Leads-trans s next.1 (poll from_utf8 wakes next).1
        (drain_or_keep-Leads (resolve_name w.manifests) w.at w.log cursor s)
        (poll-Leads wakes next.0 next.1)

scan_manifest-Leads :
    (live : Option (List String)) (at : ℕ) (appid content : Option String) (s : Source)
    → Leads s (scan_manifest live at appid content s)
scan_manifest-Leads live at none content s = Leads-refl s
scan_manifest-Leads live at (some appid) none s = Leads-refl s
scan_manifest-Leads live at (some appid) (some content) s =
    elim (Bool-cases
      (is_appid appid && is_live live appid content && not (contains s.running appid))) [
        | inl e ↦ rw e (record {
          events =
              started_game appid (name_or appid (parse_top_level_string content "name")) at ∷ [];
          appended = refl;
          tracks = begins (ground (arith, e)) rest;
        })
        | inr e ↦ rw e (Leads-refl s)
      ]

scan_file-Leads :
    (live : Option (List String)) (at : ℕ) (name content : Option String) (s : Source)
    → Leads s (scan_file live at name content s)
unfolding scan_file
scan_file-Leads live at none content s = Leads-refl s
scan_file-Leads live at (some name) content s =
    scan_manifest-Leads live at (without_suffix (strip_prefix "appmanifest_" name)) content s

scan_dir-Leads :
    (live : Option (List String)) (at : ℕ) (entries : List DirEntry) (s : Source)
    → Leads s (scan_dir live at entries s).0
unfolding scan_dir
scan_dir-Leads live at [] s = Leads-refl s
scan_dir-Leads live at (DirEntry.fault ∷ entries) s = Leads-refl s
scan_dir-Leads live at (DirEntry.file name content ∷ entries) s =
    let next = scan_file live at name content s in
    Leads-trans s next (scan_dir live at entries next).0 (scan_file-Leads live at name content s)
      (scan_dir-Leads live at entries next)

scan-Leads :
    (live : Option (List String)) (at : ℕ) (libraries : List (Option (List DirEntry))) (s : Source)
    → Leads s (cold_start_scan_with live at libraries s).0
unfolding cold_start_scan_with
scan-Leads live at [] s = Leads-refl s
scan-Leads live at (none ∷ libraries) s = scan-Leads live at libraries s
scan-Leads live at (some entries ∷ libraries) s =
    let next = scan_dir live at entries s in
    elim (Bool-cases next.1) [
      | inl e ↦ rw e (scan_dir-Leads live at entries s)
      | inr e ↦ rw e (
          Leads-trans s next.0 (cold_start_scan_with live at libraries next.0).0
            (scan_dir-Leads live at entries s) (scan-Leads live at libraries next.0))
    ]

-- Whatever Steam's files hold and however they change, rotations and failed reads included, the
-- source sends a start only for a game that it does not hold to be running, and a stop only for one
-- that it does; the set that it ends with is the one that its events lead to.
pub run-Tracks :
    (from_utf8 : Decoder) (startup : Startup) (wakes : List Wake)
    → Tracks [] (run from_utf8 startup wakes).sent (run from_utf8 startup wakes).running
unfolding run
run-Tracks from_utf8 startup wakes =
    let live = live_steam_appids startup.procs in
    let scanned = cold_start_scan_with live startup.at startup.libraries fresh in
    let first = scan-Leads live startup.at startup.libraries fresh in
    let cursor = start_cursor startup.log_length in
    elim (Bool-cases scanned.1) [
      | inl e ↦ rw e (from_fresh scanned.0 first)
      | inr e ↦ rw e (
          from_fresh (poll from_utf8 wakes (cursor, scanned.0)).1 (
            Leads-trans fresh scanned.0 (poll from_utf8 wakes (cursor, scanned.0)).1 first
              (poll-Leads from_utf8 wakes cursor scanned.0)))
    ]
  where
    from_fresh : (s : Source) → Leads fresh s → Tracks [] s.sent s.running
    from_fresh s l = rw l.appended l.tracks
