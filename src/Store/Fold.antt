-- ===== src/Store/Fold.antt =====
-- `replayLog` of internal/store/store.go as a fold over the good lines at the front of the log.
use go_bb_browser.Prelude.{
  ℕ, ◌≡◌, refl, ap, ◌∙◌, sym, true, false, List, [], ◌∷◌, ◌++◌, Option, none, some, arith, All,
}
use mathlib.Core.List.{append_assoc, append-nil}
use go_bb_browser.Prelude.Map.{Map}
use go_bb_browser.Store.Record.{LogRecord}
use go_bb_browser.Store.Replay.{
  Line, blank, entry, corrupt, LogFile, apply_managed_update, replay_lines, replay_rest, replay_log,
  write_line,
}

abbrev pub fold_lines : List Line → Map ℕ → Map ℕ
fold_lines [] m = m
fold_lines (entry rec ∷ ls) m = fold_lines ls (apply_managed_update m rec)
fold_lines (blank ∷ ls) m = fold_lines ls m
fold_lines (corrupt ∷ ls) m = fold_lines ls m

abbrev pub IsGood : Line → Type 0
IsGood corrupt = ⊥
IsGood l = Unit

pub fold_lines-append :
    (ls ks : List Line) (m : Map ℕ) → fold_lines (ls ++ ks) m ≡ fold_lines ks (fold_lines ls m)
fold_lines-append [] ks m = refl
fold_lines-append (entry rec ∷ ls) ks m = fold_lines-append ls ks (apply_managed_update m rec)
fold_lines-append (blank ∷ ls) ks m = fold_lines-append ls ks m
fold_lines-append (corrupt ∷ ls) ks m = fold_lines-append ls ks m

replay_lines-good :
    (ls : List Line) (m : Map ℕ) (kept : List Line)
    → All IsGood ls
    → replay_lines ls m kept ≡ (fold_lines ls m, kept ++ ls, true)
unfolding replay_lines
replay_lines-good [] m kept h = ap (λ x. (m, x, true)) (sym (append-nil kept))
replay_lines-good (blank ∷ ls) m kept h =
    replay_lines-good ls m (kept ++ blank ∷ []) h.1
    ∙ ap (λ x. (fold_lines ls m, x, true)) (append_assoc kept (blank ∷ []) ls)
replay_lines-good (entry rec ∷ ls) m kept h =
    replay_lines-good ls _ (kept ++ entry rec ∷ []) h.1
    ∙ ap (λ x. (fold_lines (entry rec ∷ ls) m, x, true)) (append_assoc kept (entry rec ∷ []) ls)
replay_lines-good (corrupt ∷ ls) m kept h = absurd h.0

replay_lines-corrupt :
    (ls rest : List Line) (m : Map ℕ) (kept : List Line)
    → All IsGood ls
    → replay_lines (ls ++ corrupt ∷ rest) m kept ≡ (fold_lines ls m, kept ++ ls, false)
unfolding replay_lines
replay_lines-corrupt [] rest m kept h = ap (λ x. (m, x, false)) (sym (append-nil kept))
replay_lines-corrupt (blank ∷ ls) rest m kept h =
    replay_lines-corrupt ls rest m (kept ++ blank ∷ []) h.1
    ∙ ap (λ x. (fold_lines ls m, x, false)) (append_assoc kept (blank ∷ []) ls)
replay_lines-corrupt (entry rec ∷ ls) rest m kept h =
    replay_lines-corrupt ls rest _ (kept ++ entry rec ∷ []) h.1
    ∙ ap (λ x. (fold_lines (entry rec ∷ ls) m, x, false)) (append_assoc kept (entry rec ∷ []) ls)
replay_lines-corrupt (corrupt ∷ ls) rest m kept h = absurd h.0

-- A log whose lines are all good is read whole and left as it is.
pub replay_log-good :
    (ls : List Line)
    → All IsGood ls
    → replay_log (record { lines = ls; rest = none })
      ≡ (fold_lines ls [], record { lines = ls; rest = none })
unfolding replay_log replay_rest
replay_log-good ls h = ground (arith, replay_lines-good ls [] [] h)

-- A corrupt line ends the replay: the records above it count, the line and all behind it are cut
-- off, and a replay of what is left gives the same again.
pub replay_log-corrupt :
    (ls rest : List Line) (end : Option Line)
    → All IsGood ls
    → let good : LogFile = record { lines = ls; rest = none } in
      (replay_log (record { lines = ls ++ corrupt ∷ rest; rest = end }) ≡ (fold_lines ls [], good))
      × (replay_log good ≡ (fold_lines ls [], good))
unfolding replay_log
replay_log-corrupt ls rest end h =
    (ground (arith, replay_lines-corrupt ls rest [] [] h), replay_log-good ls h)

-- A log that ends in a whole record with no newline behind it is accepted as it is, with that record
-- counted; the next record that is appended makes one corrupt line with it, and a later replay
-- counts neither of the two.
pub replay_log-torn :
    (ls : List Line) (old rec : LogRecord)
    → All IsGood ls
    → let torn : LogFile = record { lines = ls; rest = some (entry old) } in
      (replay_log torn ≡ (apply_managed_update (fold_lines ls []) old, torn))
      × (replay_log (write_line torn rec) ≡ (fold_lines ls [], record { lines = ls; rest = none }))
unfolding replay_log replay_rest write_line
replay_log-torn ls old rec h = (
  ground (arith, replay_lines-good ls [] [] h),
  ground (arith, replay_lines-corrupt ls [] [] [] h),
)
