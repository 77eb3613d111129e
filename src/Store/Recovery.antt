-- ===== src/Store/Recovery.antt =====
-- A restart recovers the managed tabs of internal/store/store.go from the current log alone.
use go_bb_browser.Prelude.{
  ℤ, ltb, leb, ℕ, ◌+◌, ◌≡◌, refl, ap, ◌∙◌, sym, Bool, true, false, ◌&&◌, List, [], ◌∷◌, ◌++◌,
  Option, none, some, Text, arith, All, All-append, str_eq, str_eq_self, str_eq_iff, if◌then◌else◌,
  Bool-cases, Option-cases, inl, inr,
}
use go_bb_browser.Prelude.Map.{Map, get-insert, get-delete}
use go_bb_browser.Prelude.Map
use go_bb_browser.Prelude.Sort.{sort, any-sort}
use go_bb_browser.State.Target.{in_set}
use go_bb_browser.Protocol.{method_tab_new}
use go_bb_browser.Store.Record.{LogRecord}
use go_bb_browser.Store.Replay.{
  Line, blank, entry, corrupt, LogFile, apply_managed_update, replay_log, write_line, tab_of_record,
}
use go_bb_browser.Store.Fold.{fold_lines, IsGood, fold_lines-append, replay_log-good}
use go_bb_browser.Store.State.{
  Store, Disk, Error, snapshot_lines, snapshot_record, rotate_locked, append_disk, append_rpc,
  stamped, is_empty, is_invalid, action_required, body_required, marshal_failed, open_disk,
  replay_managed_tab_activity,
}

-- Two maps with the same entries.
abbrev pub Same : Map ℕ → Map ℕ → Type 0
Same m n = (k : Text) → Map.get k m ≡ Map.get k n

apply-Same :
    (m n : Map ℕ) (rec : LogRecord)
    → Same m n
    → Same (apply_managed_update m rec) (apply_managed_update n rec)
unfolding apply_managed_update
apply-Same m n rec h k =
    let tab = tab_of_record rec in
    ground (
      arith,
      h k,
      h tab,
      get-insert k tab rec.time m,
      get-insert k tab rec.time n,
      get-delete k tab m,
      get-delete k tab n,
    )

-- Only a nonempty short id is ever managed.
apply-nonempty :
    (m : Map ℕ) (rec : LogRecord)
    → Map.get [] m ≡ none
    → Map.get [] (apply_managed_update m rec) ≡ none
unfolding apply_managed_update
apply-nonempty m rec h =
    let tab = tab_of_record rec in
    ground (arith, get-insert [] tab rec.time m, get-delete [] tab m, str_eq_iff tab [])

apply-snapshot_record :
    (acc : Map ℕ) (j : Text) (at : ℕ)
    → str_eq j [] ≡ false
    → apply_managed_update acc (snapshot_record j at) ≡ Map.insert j at acc
unfolding apply_managed_update
apply-snapshot_record acc j at h = ground (arith, str_eq_self method_tab_new)

get-fold-snapshot :
    (ks : List Text) (m acc : Map ℕ) (k : Text)
    → Map.get [] m ≡ none
    → Map.get k (fold_lines (snapshot_lines ks m) acc)
      ≡ (if in_set ks k && Map.has k m then Map.get k m else Map.get k acc)
unfolding snapshot_lines
get-fold-snapshot [] m acc k h = refl
get-fold-snapshot (j ∷ ks) m acc k h = elim (Option-cases (Map.get j m)) [
  | inl e ↦ rw (e, snapshot_lines) (ground (arith, get-fold-snapshot ks m acc k h, str_eq_iff j k))
  | inr (at, e) ↦
      let named : str_eq j [] ≡ false = ground (arith, str_eq_iff j []) in
      rw (e, snapshot_lines, apply-snapshot_record acc j at named)
        (ground (
          arith,
          get-fold-snapshot ks m (Map.insert j at acc) k h,
          get-insert k j at acc,
          str_eq_iff j k,
        ))
]

in_set-keys : (m : Map ℕ) (k : Text) → in_set (Map.keys m) k ≡ Map.has k m
unfolding Map.get
in_set-keys [] k = refl
in_set-keys ((j, w) ∷ m) k = ground (arith, in_set-keys m k)

snapshot-IsGood : (ks : List Text) (m : Map ℕ) → All IsGood (snapshot_lines ks m)
unfolding snapshot_lines
snapshot-IsGood [] m = tt
snapshot-IsGood (j ∷ ks) m = elim (Option-cases (Map.get j m)) [
  | inl e ↦ rw (e, snapshot_lines) (snapshot-IsGood ks m)
  | inr (at, e) ↦ rw (e, snapshot_lines) (tt, snapshot-IsGood ks m)
]

-- A replay of the snapshot gives the managed tabs.
snapshot-Same :
    (m : Map ℕ)
    → Map.get [] m ≡ none
    → Same (fold_lines (snapshot_lines (sort (Map.keys m)) m) []) m
unfolding Map.get
snapshot-Same m h k = ground (
  arith,
  get-fold-snapshot (sort (Map.keys m)) m [] k h,
  any-sort (λ i. str_eq i k) (Map.keys m),
  in_set-keys m k,
)

-- The log on disk is whole, and a replay of it gives the managed tabs.
pub record IsRecoverable (s : Store) (ls : List Line) : Type 0 where
  pub on_disk : s.in_memory ≡ false
  pub log : s.log_file ≡ some (record { lines = ls; rest = none })
  pub good : All IsGood ls
  pub same : Same (fold_lines ls []) s.managed
  pub named : Map.get [] s.managed ≡ none

-- A disk that takes every write.
abbrev pub works : Disk
works = record { writes = true; opens = true; writes_snapshot = true }

abbrev pub Recovers : Store → Type 0
Recovers s = (ls : List Line) × IsRecoverable s ls

module _ (line_length : LogRecord → ℕ) where
  rotate-Recovers :
      (s : Store) (f : LogFile)
      → s.in_memory ≡ false
      → Map.get [] s.managed ≡ none
      → Recovers (rotate_locked line_length works s f)
  unfolding rotate_locked
  rotate-Recovers s f d n = (
    snapshot_lines (sort (Map.keys s.managed)) s.managed,
    record {
      on_disk = d;
      log = refl;
      good = snapshot-IsGood (sort (Map.keys s.managed)) s.managed;
      same = snapshot-Same s.managed n;
      named = n;
    },
  )

  append_disk-Recovers :
      (s : Store) (rec : LogRecord) (ls : List Line)
      → s.in_memory ≡ false
      → s.log_file ≡ some (record { lines = ls; rest = none })
      → All IsGood ls
      → Same (apply_managed_update (fold_lines ls []) rec) s.managed
      → Map.get [] s.managed ≡ none
      → Recovers (append_disk line_length works s rec).1
  unfolding append_disk write_line
  append_disk-Recovers s rec ls d l g m n =
      let bytes = s.log_bytes + line_length rec in
      let f : LogFile = record { lines = ls ++ entry rec ∷ []; rest = none } in
      let s' = record s { log_file = some f; log_bytes = bytes } in
      elim (Bool-cases (ltb 0 s.max_log_bytes && leb s.max_log_bytes bytes)) [
        | inl full ↦ rw (l, append_disk, write_line, full) (rotate-Recovers s' f d n)
        | inr more ↦
            rw (l, append_disk, write_line, more)
              (
                ls ++ entry rec ∷ [],
                record {
                  on_disk = d;
                  log = refl;
                  good = All-append IsGood ls (entry rec ∷ []) g (tt, tt);
                  same = λ k. ap (Map.get k) (fold_lines-append ls (entry rec ∷ []) []) ∙ m k;
                  named = n;
                },
              )
      ]

either :
    (b : Bool) (x y : Option Error × Store)
    → Recovers x.1
    → Recovers y.1
    → Recovers (if b then x else y).1
either true x y h k = h
either false x y h k = k

otherwise :
    (b : Bool) (x y : Option Error × Store)
    → b ≡ false
    → Recovers y.1
    → Recovers (if b then x else y).1
otherwise b x y e k = rw e k

-- Whatever record is appended while the disk takes every write, the log stays whole and a replay of
-- it gives the managed tabs that are in memory, also where the append rotated the log.
pub append_rpc-Recovers :
    (line_length : LogRecord → ℕ) (now : ℕ) (s : Store) (rec : LogRecord)
    → Recovers s
    → Recovers (append_rpc line_length works now s rec).1
unfolding append_rpc
append_rpc-Recovers line_length now s rec (ls, v) =
    let rec' = stamped now rec in
    let s' = record s { managed = apply_managed_update s.managed rec' } in
    let on_disk = append_disk line_length works s' rec' in
    let stored : Option Error × Store =
      if s.in_memory then (none, record s' { mem_logs = s.mem_logs ++ rec' ∷ [] }) else on_disk in
    let marshalled : Option Error × Store =
      if is_invalid rec'.body then (some marshal_failed, s) else stored in
    let with_body : Option Error × Store =
      if is_empty rec.body then (some body_required, s) else marshalled in
    either (str_eq rec.action []) (some action_required, s) with_body (ls, v)
      (either (is_empty rec.body) (some body_required, s) marshalled (ls, v)
        (either (is_invalid rec'.body) (some marshal_failed, s) stored (ls, v)
          (otherwise s.in_memory (none, record s' { mem_logs = s.mem_logs ++ rec' ∷ [] }) on_disk
            v.on_disk
            (append_disk-Recovers line_length s' rec' ls v.on_disk v.log v.good
              (apply-Same (fold_lines ls []) s.managed rec' v.same)
              (apply-nonempty s.managed rec' v.named)))))

-- A series of appends, each with its time.
pub append_all : (LogRecord → ℕ) → Store → List (ℕ × LogRecord) → Store
append_all line_length s [] = s
append_all line_length s ((now, rec) ∷ recs) =
    append_all line_length (append_rpc line_length works now s rec).1 recs

append_all-Recovers :
    (line_length : LogRecord → ℕ) (s : Store) (recs : List (ℕ × LogRecord))
    → Recovers s
    → Recovers (append_all line_length s recs)
unfolding append_all
append_all-Recovers line_length s [] v = v
append_all-Recovers line_length s ((now, rec) ∷ recs) v =
    append_all-Recovers line_length (append_rpc line_length works now s rec).1 recs
      (append_rpc-Recovers line_length now s rec v)

fold-nonempty :
    (ls : List Line) (m : Map ℕ) → Map.get [] m ≡ none → Map.get [] (fold_lines ls m) ≡ none
fold-nonempty [] m h = h
fold-nonempty (entry rec ∷ ls) m h = fold-nonempty ls _ (apply-nonempty m rec h)
fold-nonempty (blank ∷ ls) m h = fold-nonempty ls m h
fold-nonempty (corrupt ∷ ls) m h = fold-nonempty ls m h

open_disk-Recovers :
    (max : ℤ) (now size : ℕ) (ls : List Line)
    → All IsGood ls
    → Recovers (open_disk max now (record { lines = ls; rest = none }) size)
unfolding open_disk Map.get
open_disk-Recovers max now size ls g = (
  ls,
  record {
    on_disk = refl;
    log = ap (λ r. some r.1) (replay_log-good ls g);
    good = g;
    same = λ k. ap (λ r. Map.get k r.0) (sym (replay_log-good ls g));
    named = ap (λ r. Map.get [] r.0) (replay_log-good ls g) ∙ fold-nonempty ls [] refl;
  },
)

-- Open a log of good lines, append any records, rotating at any size, on a disk that takes every
-- write: at the end there is an open log from which alone a restart replays, for every tab, the last
-- activity that is in memory, and which the replay leaves as it is.
pub recovery :
    (line_length : LogRecord → ℕ) (max : ℤ) (now size : ℕ) (ls : List Line)
    (recs : List (ℕ × LogRecord))
    → All IsGood ls
    → let s =
        append_all line_length (open_disk max now (record { lines = ls; rest = none }) size) recs in
      (f : LogFile) × (s.log_file ≡ some f)
      × ((replay_log f).1 ≡ f)
      × ((k : Text) → Map.get k (replay_log f).0 ≡ Map.get k (replay_managed_tab_activity s))
unfolding replay_managed_tab_activity
recovery line_length max now size ls recs g =
    let (ks, v) = append_all-Recovers line_length _ recs (open_disk-Recovers max now size ls g) in
    let e = replay_log-good ks v.good in
    (
      record { lines = ks; rest = none },
      v.log,
      ap (λ r. r.1) e,
      λ k. ap (λ r. Map.get k r.0) e ∙ v.same k,
    )
