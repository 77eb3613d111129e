-- ===== src/Store/Tests.antt =====
-- Runs of internal/store, and its theorems at a concrete log.
use go_bb_browser.Prelude.{
  ℕ, ◌≡◌, refl, true, false, List, [], ◌∷◌, ◌++◌, Option, none, some, Text, arith, codes, pos, All,
}
use go_bb_browser.Prelude.Map
use go_bb_browser.Prelude.Json.{empty, value, null, obj, end, field, str}
use go_bb_browser.Protocol.{method_tab_new, method_tab_close}
use go_bb_browser.Store.Record.{LogRecord, tab_from_request_body}
use go_bb_browser.Store.Replay.{
  Line, blank, entry, corrupt, LogFile, apply_managed_update, replay_log, write_line,
}
use go_bb_browser.Store.Fold.{fold_lines, replay_log-corrupt, replay_log-torn}
use go_bb_browser.Store.State.{open_disk, replay_managed_tab_activity}
use go_bb_browser.Store.Recovery.{append_all, recovery}

abbrev called : Text → Text → ℕ → LogRecord
called action tab time = record {
  action = action;
  body = value (obj end);
  tab = tab;
  sender_ip = codes "127.0.0.1";
  seq = 1;
  ok = true;
  error = [];
  time = time;
}

abbrev old_lines : List Line
old_lines = entry (called method_tab_new (codes "cdef") 10) ∷ blank ∷ []

abbrev later : List (ℕ × LogRecord)
later =
    (20, called method_tab_new (codes "beef") 0)
    ∷ (30, called (codes "goto") (codes "cdef") 30)
    ∷ (40, called method_tab_close (codes "beef") 40)
    ∷ []

-- Every record has 100 bytes, so that the second of the three records rotates the log.
abbrev length_of : LogRecord → ℕ
length_of rec = 100

recovery_example :
    let s =
      append_all length_of
        (open_disk (pos 300) 5 (record { lines = old_lines; rest = none }) 101)
        later in
    (f : LogFile) × (s.log_file ≡ some f)
    × ((replay_log f).1 ≡ f)
    × ((k : Text) → Map.get k (replay_log f).0 ≡ Map.get k (replay_managed_tab_activity s))
recovery_example = recovery length_of (pos 300) 5 101 old_lines later (tt, (tt, tt))

replay_log-corrupt_example :
    let good : LogFile = record { lines = old_lines; rest = none } in
    (replay_log (record { lines = old_lines ++ corrupt ∷ blank ∷ []; rest = some corrupt })
      ≡ (fold_lines old_lines [], good))
    × (replay_log good ≡ (fold_lines old_lines [], good))
replay_log-corrupt_example = replay_log-corrupt old_lines (blank ∷ []) (some corrupt) (tt, (tt, tt))

replay_log-torn_example :
    let torn : LogFile = record {
      lines = old_lines;
      rest = some (entry (called method_tab_new (codes "beef") 20));
    } in
    (replay_log torn ≡ (
      apply_managed_update (fold_lines old_lines []) (called method_tab_new (codes "beef") 20),
      torn,
    ))
    × (replay_log (write_line torn (called method_tab_close (codes "cdef") 30))
        ≡ (fold_lines old_lines [], record { lines = old_lines; rest = none }))
replay_log-torn_example =
    replay_log-torn old_lines (called method_tab_new (codes "beef") 20)
      (called method_tab_close (codes "cdef") 30) (tt, (tt, tt))

-- The last key that names the field counts, whatever its case.
tab_folded :
    tab_from_request_body (
      value (
        obj (
          field
            (codes "params")
            (obj
              (field (codes "tab") (str (codes "a")) (field (codes "TAB") (str (codes "b")) end)))
            end)))
    ≡ codes "b"
unfolding tab_from_request_body go_bb_browser.Prelude.Json.raw_field
    go_bb_browser.Prelude.Json.string_member
tab_folded = refl
