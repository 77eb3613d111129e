-- ===== src/Store/State.antt =====
-- internal/store/store.go: the log on disk or in memory, the managed tabs, and the sequence numbers.
-- The file system enters by what it answers (`Disk`) and by the length of a marshalled record; a
-- write that fails writes nothing. Each method holds the mutex while it reads or changes the state.
use go_bb_browser.Prelude.{
  ℕ, zero, suc, ◌+◌, ◌*◌, ◌%◌, ◌^◌, Bool, true, false, ◌&&◌, not, List, [], ◌∷◌, ◌++◌, Option, none,
  some, Text, codes, str_eq, leb, ltb, ◌==◌, if◌then◌else◌, ℤ, pos, negsuc,
}
use go_bb_browser.Prelude.Map.{Map}
use go_bb_browser.Prelude.Map
use go_bb_browser.Prelude.Sort.{sort}
use go_bb_browser.Prelude.Json.{str, obj, end, field, RawMessage, empty, invalid, value}
use go_bb_browser.Protocol.{method_tab_new}
use go_bb_browser.Store.Record.{LogRecord, compact_rpc_log_body}
use go_bb_browser.Store.Replay.{LogFile, Line, entry, apply_managed_update, replay_log, write_line}

abbrev pub default_max_log_bytes : ℕ
default_max_log_bytes = 8 * 2 ^ 20

-- `seq` is a uint64. `log_file` is the open file; `backups` are rpc.jsonl.1, .2 and .3.
pub record Store : Type 0 where
  pub in_memory : Bool
  pub log_file : Option LogFile
  pub backups : Option LogFile × Option LogFile × Option LogFile
  pub log_bytes : ℕ
  pub max_log_bytes : ℕ
  pub seq : ℕ
  pub managed : Map ℕ
  pub mem_logs : List LogRecord

pub data Error : Type 0 where
  action_required body_required marshal_failed not_open write_failed : Error

-- Whether the disk takes the line, opens the new log at a rotation, and takes the snapshot.
pub record Disk : Type 0 where
  pub writes : Bool
  pub opens : Bool
  pub writes_snapshot : Bool

-- `Open` in memory, at the time `now`.
unfoldable pub open_memory : ℤ → ℕ → Store
open_memory max now = record {
  in_memory = true;
  log_file = none;
  backups = (none, none, none);
  log_bytes = 0;
  max_log_bytes = elim max [
    | pos zero ↦ default_max_log_bytes
    | pos (suc n) ↦ suc n
    | negsuc n ↦ default_max_log_bytes
  ];
  seq = now % 2 ^ 64;
  managed = [];
  mem_logs = [];
}

-- `Open` on a directory that it can use, where the log holds `file` of `size` bytes after the replay.
unfoldable pub open_disk : ℤ → ℕ → LogFile → ℕ → Store
unfolding open_memory
open_disk max now file size =
    let (managed, kept) = replay_log file in
    record (open_memory max now) {
      in_memory = false;
      log_file = some kept;
      log_bytes = size;
      managed = managed;
    }

unfoldable pub next_seq : Store → ℕ × Store
next_seq s = let n = (s.seq + 1) % 2 ^ 64 in (n, record s { seq = n })

abbrev pub snapshot_body : RawMessage
snapshot_body = value (
    obj (
      field (codes "jsonrpc") (str (codes "2.0"))
        (field (codes "method") (str method_tab_new) (field (codes "params") (obj end) end))))

-- The synthetic record of `writeManagedSnapshotLocked`.
abbrev pub snapshot_record : Text → ℕ → LogRecord
snapshot_record short at = record {
  action = method_tab_new;
  body = snapshot_body;
  tab = short;
  sender_ip = [];
  seq = 0;
  ok = true;
  error = [];
  time = at;
}

unfoldable pub snapshot_lines : List Text → Map ℕ → List Line
snapshot_lines [] m = []
snapshot_lines (k ∷ ks) m = elim (Map.get k m) [
  | none ↦ snapshot_lines ks m
  | some at ↦ entry (snapshot_record k at) ∷ snapshot_lines ks m
]

-- The record as `AppendRPC` writes it: a zero time becomes `now`, the body is compacted.
abbrev pub stamped : ℕ → LogRecord → LogRecord
stamped now rec = record rec {
  time = if rec.time == 0 then now else rec.time;
  body = compact_rpc_log_body rec.body;
}

unfoldable pub is_invalid : RawMessage → Bool
is_invalid invalid = true
is_invalid raw = false

unfoldable pub is_empty : RawMessage → Bool
is_empty empty = true
is_empty raw = false

module _ (line_length : LogRecord → ℕ) where
  total_length : List Line → ℕ
  total_length [] = 0
  total_length (Line.entry rec ∷ ls) = line_length rec + total_length ls
  total_length (l ∷ ls) = total_length ls

  -- `rotateLocked` with the log open; what the log held becomes rpc.jsonl.1.
  unfoldable pub rotate_locked : Disk → Store → LogFile → Store
  unfolding total_length
  rotate_locked d s log =
      let rolled = record s { backups = (some log, s.backups.0, s.backups.1); log_file = none } in
      let lines = snapshot_lines (sort (Map.keys s.managed)) s.managed in
      if not d.opens
      then rolled
      else if d.writes_snapshot
      then record rolled {
        log_file = some (record { lines = lines; rest = none });
        log_bytes = total_length lines;
      }
      else record rolled { log_file = some (record { lines = []; rest = none }); log_bytes = 0 }

  -- The part of `AppendRPC` behind the update of the managed tabs, on disk.
  unfoldable pub append_disk : Disk → Store → LogRecord → Option Error × Store
  unfolding rotate_locked
  append_disk d s rec = elim s.log_file [
    | none ↦ (some not_open, s)
    | some f ↦
        let f' = write_line f rec in
        let bytes = s.log_bytes + line_length rec in
        let s' = record s { log_file = some f'; log_bytes = bytes } in
        if not d.writes
        then (some write_failed, s)
        else if ltb 0 s.max_log_bytes && leb s.max_log_bytes bytes
        then (none, rotate_locked d s' f')
        else (none, s')
  ]

  -- `AppendRPC` at the time `now`.
  unfoldable pub append_rpc : Disk → ℕ → Store → LogRecord → Option Error × Store
  unfolding append_disk is_invalid is_empty
  append_rpc d now s rec =
      let rec' = stamped now rec in
      let s' = record s { managed = apply_managed_update s.managed rec' } in
      if str_eq rec.action []
      then (some action_required, s)
      else if is_empty rec.body
      then (some body_required, s)
      else if is_invalid rec'.body
      then (some marshal_failed, s)
      else if s.in_memory
      then (none, record s' { mem_logs = s.mem_logs ++ rec' ∷ [] })
      else append_disk d s' rec'

unfoldable pub replay_managed_tab_activity : Store → Map ℕ
replay_managed_tab_activity s = s.managed

unfoldable pub close : Store → Store
close s = record s { log_file = none }
