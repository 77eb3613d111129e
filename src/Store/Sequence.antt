-- ===== src/Store/Sequence.antt =====
-- internal/store/store.go: what writing to the log leaves alone.
use go_bb_browser.Prelude.{ℕ, ◌+◌, ◌≡◌, refl, some, arith, Option-cases, inl, inr}
use go_bb_browser.Store.Record.{LogRecord}
use go_bb_browser.Store.Replay.{LogFile, write_line, apply_managed_update}
use go_bb_browser.Store.State.{Store, Disk, append_rpc, append_disk, rotate_locked, stamped}

module _ (line_length : LogRecord → ℕ) where
  seq-rotate_locked :
      (d : Disk) (s : Store) (f : LogFile) → (rotate_locked line_length d s f).seq ≡ s.seq
  unfolding rotate_locked
  seq-rotate_locked d s f = ground arith

  seq-append_disk :
      (d : Disk) (s : Store) (rec : LogRecord) → (append_disk line_length d s rec).1.seq ≡ s.seq
  unfolding append_disk
  seq-append_disk d s rec = elim (Option-cases s.log_file) [
    | inl e ↦ rw (append_disk, e) refl
    | inr (f, e) ↦
        rw (append_disk, e)
          (let f' = write_line f rec in
            let s' = record s { log_file = some f'; log_bytes = s.log_bytes + line_length rec } in
            ground (arith, seq-rotate_locked d s' f'))
  ]

  -- Writing a record takes no sequence number.
  pub seq-append_rpc :
      (d : Disk) (now : ℕ) (s : Store) (rec : LogRecord)
      → (append_rpc line_length d now s rec).1.seq ≡ s.seq
  unfolding append_rpc
  seq-append_rpc d now s rec =
      let rec' = stamped now rec in
      ground
        (arith, seq-append_disk d (record s { managed = apply_managed_update s.managed rec' }) rec')
