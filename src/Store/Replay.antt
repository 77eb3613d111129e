-- ===== src/Store/Replay.antt =====
-- internal/store/replay.go, and `replayLog` of store.go: the managed tabs from the log's records.
use go_bb_browser.Prelude.{
  ℕ, Bool, true, false, ◌&&◌, not, List, [], ◌∷◌, ◌++◌, Option, none, some, Text, str_eq,
  if◌then◌else◌,
}
use go_bb_browser.Prelude.Map.{Map}
use go_bb_browser.Prelude.Map
use go_bb_browser.Protocol.{
  method_tab_new, method_tab_close, method_tab_list, is_tab_related_method,
}
use go_bb_browser.Store.Record.{LogRecord, tab_from_request_body}

-- The tab of a record: its own, or the one that its request names.
pub tab_of_record : LogRecord → Text
tab_of_record rec = if str_eq rec.tab [] then tab_from_request_body rec.body else rec.tab

unfoldable pub apply_managed_update : Map ℕ → LogRecord → Map ℕ
unfolding tab_of_record
apply_managed_update managed rec =
    let tab = tab_of_record rec in
    if not rec.ok
    then managed
    else if str_eq rec.action method_tab_new
    then (if str_eq tab [] then managed else Map.insert tab rec.time managed)
    else if str_eq rec.action method_tab_close
    then (if str_eq tab [] then managed else Map.delete tab managed)
    else if not (str_eq tab [])
        && is_tab_related_method rec.action
        && not (str_eq rec.action method_tab_list)
    then (if Map.has tab managed then Map.insert tab rec.time managed else managed)
    else managed

-- What a line of the log holds: only white space, one record, or something else.
pub data Line : Type 0 where
  blank : Line
  entry : LogRecord → Line
  corrupt : Line

-- The log file: the lines that end in a newline, and what stands behind the last newline.
pub record LogFile : Type 0 where
  pub lines : List Line
  pub rest : Option Line

-- A read through the lines: the managed tabs, the lines that are kept, and whether all were good.
unfoldable pub replay_lines : List Line → Map ℕ → List Line → Map ℕ × List Line × Bool
replay_lines [] managed kept = (managed, kept, true)
replay_lines (blank ∷ ls) managed kept = replay_lines ls managed (kept ++ blank ∷ [])
replay_lines (entry rec ∷ ls) managed kept =
    replay_lines ls (apply_managed_update managed rec) (kept ++ entry rec ∷ [])
replay_lines (corrupt ∷ ls) managed kept = (managed, kept, false)

-- What stands behind the last newline is read like a line; it is cut off only if it is corrupt.
unfoldable pub replay_rest : Option Line → Map ℕ → Map ℕ × Option Line
replay_rest none managed = (managed, none)
replay_rest (some blank) managed = (managed, some blank)
replay_rest (some (entry rec)) managed = (apply_managed_update managed rec, some (entry rec))
replay_rest (some corrupt) managed = (managed, none)

-- `replayLog`: the managed tabs, and the file that is left.
unfoldable pub replay_log : LogFile → Map ℕ × LogFile
unfolding replay_lines replay_rest
replay_log f =
    let (managed, kept, good) = replay_lines f.lines [] [] in
    if good
    then (let (managed', rest) = replay_rest f.rest managed in
        (managed', record { lines = kept; rest = rest }))
    else (managed, record { lines = kept; rest = none })

-- A write of one line at the end of the file: it goes on with what stands behind the last newline.
unfoldable pub write_line : LogFile → LogRecord → LogFile
write_line f rec = elim f.rest [
  | none ↦ record f { lines = f.lines ++ entry rec ∷ [] }
  | some blank ↦ record { lines = f.lines ++ entry rec ∷ []; rest = none }
  | some (entry old) ↦ record { lines = f.lines ++ corrupt ∷ []; rest = none }
  | some corrupt ↦ record { lines = f.lines ++ corrupt ∷ []; rest = none }
]
