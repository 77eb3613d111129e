-- ===== src/Daemon/TabLock/Inv/Moves.antt =====
-- A move of thread `i` keeps each field of the invariant.
use go_bb_browser.Prelude.{
  ℕ, ◌+◌, ◌≤◌, ◌<◌, ◌≡◌, refl, true, some, arith, Text, str_eq_iff, Option-cases, inl, inr,
}
use go_bb_browser.Prelude.Map
use go_bb_browser.Prelude.Threads.{update, total, total-update, total_mono, le-total}
use go_bb_browser.Daemon.TabLock.{
  TabLocks, acquire_ref, new_entry, add_ref, receive, send, release_tab_lock_ref, forget_tab_lock,
}
use go_bb_browser.Daemon.TabLock.Threads.{
  Pc, idle, unguarded, waiting, holding, leaving, Move, skip, skipped, acquire, enter, cancel,
  unlock, release, forget, ref_of, uses, holds,
}
use go_bb_browser.Daemon.TabLock.Inv.Defs.{Inv}

holds-le-uses : (e : ℕ) (p : Pc) → holds e p ≤ uses e p
holds-le-uses e idle = omega arith
holds-le-uses e unguarded = omega arith
holds-le-uses e (waiting s d) = omega arith
holds-le-uses e (holding s d) = ground arith
holds-le-uses e (leaving s d) = omega arith

uses_self : (s : Text) (e : ℕ) (p : Pc) → ref_of p ≡ some (s, e) → uses e p ≡ 1
uses_self s e p h = rw h (ground arith)

module _ {n : ℕ} {l : TabLocks} {pc : ℕ → Pc} (inv : Inv n l pc) (i : ℕ) (lt : i < n) where
  open inv use {counted, token, unborn, linked, named, apart, live}

  -- Thread `i` goes from `p` to `p'`.
  record Mover (p p' : Pc) : Type 0 where
    here : pc i ≡ p
    used : (e : ℕ) → total (uses e) n (update pc i p') + uses e p ≡ total (uses e) n pc + uses e p'
    held :
        (e : ℕ) → total (holds e) n (update pc i p') + holds e p ≡ total (holds e) n pc + holds e p'
    within : (e : ℕ) → uses e p ≤ total (uses e) n pc
    own : (s : Text) (e : ℕ) → ref_of p ≡ some (s, e) → Map.get s l.tab_cdp_locks ≡ some e

  mover : (p' : Pc) → Mover (pc i) p'
  mover p' = record {
    here = refl;
    used = λ e. total-update (uses e) n pc i p' lt;
    held = λ e. total-update (holds e) n pc i p' lt;
    within = λ e. le-total (uses e) n pc i lt;
    own = λ s e q. linked i s e lt q;
  }

  Move-counted :
      {p p' : Pc} {l' : TabLocks}
      → Move l p l' p'
      → Mover p p'
      → (e : ℕ) → (l'.entries e).refs ≡ total (uses e) n (update pc i p')
  unfolding acquire_ref new_entry add_ref receive send release_tab_lock_ref forget_tab_lock
  Move-counted skip f e = ground (arith, counted e, f.used e)
  Move-counted skipped f e = ground (arith, counted e, f.used e)
  Move-counted (acquire short q) f e = ground (arith, counted e, f.used e, unborn e)
  Move-counted (enter q) f e = ground (arith, counted e, f.used e, q)
  Move-counted cancel f e = ground (arith, counted e, f.used e)
  Move-counted (unlock q) f e = ground (arith, counted e, f.used e, q)
  Move-counted (release {short} {e = d}) f e = ground (arith, counted e, f.used e)
  Move-counted (forget short) f e = ground (arith, counted e, f.used e)

  Move-token :
      {p p' : Pc} {l' : TabLocks}
      → Move l p l' p'
      → Mover p p'
      → (e : ℕ) → e < l'.size
      → (l'.entries e).sem + total (holds e) n (update pc i p') ≡ 1
  unfolding acquire_ref new_entry add_ref receive send release_tab_lock_ref forget_tab_lock
  Move-token skip f e h = ground (arith, token e, f.held e)
  Move-token skipped f e h = ground (arith, token e, f.held e)
  Move-token (acquire short q) f e h = ground (
    arith,
    token e,
    f.held e,
    unborn e,
    counted e,
    total_mono (holds e) (uses e) (holds-le-uses e) n pc,
  )
  Move-token (enter q) f e h = ground (arith, token e, f.held e, q)
  Move-token cancel f e h = ground (arith, token e, f.held e)
  Move-token (unlock q) f e h = ground (arith, token e, f.held e, q)
  Move-token (release {short} {e = d}) f e h = ground (arith, token e, f.held e)
  Move-token (forget short) f e h = ground (arith, token e, f.held e)

  Move-named :
      {p p' : Pc} {l' : TabLocks}
      → Move l p l' p'
      → (s : Text) (e : ℕ) → Map.get s l'.tab_cdp_locks ≡ some e
      → e < l'.size
  unfolding acquire_ref new_entry add_ref receive send release_tab_lock_ref forget_tab_lock
  Move-named (acquire short q) s e h =
      ground (arith, named s e, Map.get-insert s short l.size l.tab_cdp_locks, str_eq_iff short s)
  Move-named (enter q) s e h = ground (arith, named s e)
  Move-named (unlock q) s e h = ground (arith, named s e)
  Move-named (release {short} {e = d}) s e h =
      ground (arith, named s e, Map.get-delete s short l.tab_cdp_locks)
  Move-named (forget short) s e h =
      ground (arith, named s e, Map.get-delete s short l.tab_cdp_locks)
  Move-named mv s e h = named s e h

  Move-unborn :
      {p p' : Pc} {l' : TabLocks}
      → Move l p l' p'
      → Mover p p'
      → (e : ℕ) → l'.size ≤ e
      → (l'.entries e).refs ≡ 0
  unfolding acquire_ref new_entry add_ref receive send release_tab_lock_ref forget_tab_lock
  Move-unborn skip f e h = ground (arith, unborn e)
  Move-unborn skipped f e h = ground (arith, unborn e)
  Move-unborn (acquire short q) f e h = elim (Option-cases (Map.get short l.tab_cdp_locks)) [
    | inl new ↦ ground (arith, unborn e)
    | inr (d, old) ↦ ground (arith, unborn e, named short d)
  ]
  Move-unborn (enter q) f e h = ground (arith, unborn e)
  Move-unborn cancel f e h = ground (arith, unborn e)
  Move-unborn (unlock q) f e h = ground (arith, unborn e)
  Move-unborn (release {short} {e = d}) f e h = ground (arith, unborn e)
  Move-unborn (forget short) f e h = ground (arith, unborn e)

  Move-apart :
      {p p' : Pc} {l' : TabLocks}
      → Move l p l' p'
      → (s t : Text) (e : ℕ) → Map.get s l'.tab_cdp_locks ≡ some e
      → Map.get t l'.tab_cdp_locks ≡ some e
      → s ≡ t
  unfolding acquire_ref new_entry add_ref receive send release_tab_lock_ref forget_tab_lock
  Move-apart (acquire short q) s t e h k = ground (
    arith,
    apart s t e,
    named s e,
    named t e,
    Map.get-insert s short l.size l.tab_cdp_locks,
    Map.get-insert t short l.size l.tab_cdp_locks,
    str_eq_iff short s,
    str_eq_iff short t,
  )
  Move-apart (enter q) s t e h k = ground (arith, apart s t e)
  Move-apart (unlock q) s t e h k = ground (arith, apart s t e)
  Move-apart (release {short} {e = d}) s t e h k = ground (
    arith,
    apart s t e,
    Map.get-delete s short l.tab_cdp_locks,
    Map.get-delete t short l.tab_cdp_locks,
  )
  Move-apart (forget short) s t e h k = ground (
    arith,
    apart s t e,
    Map.get-delete s short l.tab_cdp_locks,
    Map.get-delete t short l.tab_cdp_locks,
  )
  Move-apart mv s t e h k = apart s t e h k

  Move-live :
      {p p' : Pc} {l' : TabLocks}
      → Move l p l' p'
      → Mover p p'
      → (s : Text) (e : ℕ) → Map.get s l'.tab_cdp_locks ≡ some e
      → (l'.entries e).forgotten ≡ true
      → 0 < (l'.entries e).refs
  unfolding acquire_ref new_entry add_ref receive send release_tab_lock_ref forget_tab_lock
  Move-live (acquire short q) f s e h k = ground (
    arith,
    live s e,
    named s e,
    Map.get-insert s short l.size l.tab_cdp_locks,
    str_eq_iff short s,
  )
  Move-live (enter q) f s e h k = ground (arith, live s e)
  Move-live (unlock q) f s e h k = ground (arith, live s e)
  Move-live (release {short} {e = d}) f s e h k = ground (
    arith,
    live s e,
    f.own short d,
    apart s short e,
    Map.get-delete s short l.tab_cdp_locks,
    str_eq_iff short s,
  )
  Move-live (forget short) f s e h k =
      ground (
        arith,
        live s e,
        apart s short e,
        Map.get-delete s short l.tab_cdp_locks,
        str_eq_iff short s,
      )
  Move-live mv f s e h k = live s e h k

  Move-linked :
      {p p' : Pc} {l' : TabLocks}
      → Move l p l' p'
      → Mover p p'
      → (j : ℕ) (s : Text) (e : ℕ) → j < n
      → ref_of (update pc i p' j) ≡ some (s, e)
      → Map.get s l'.tab_cdp_locks ≡ some e
  unfolding acquire_ref new_entry add_ref receive send release_tab_lock_ref forget_tab_lock
  Move-linked skip f j s e h k = ground (arith, linked j s e)
  Move-linked skipped f j s e h k = ground (arith, linked j s e)
  Move-linked (acquire short q) f j s e h k =
      ground
        (arith, linked j s e, Map.get-insert s short l.size l.tab_cdp_locks, str_eq_iff short s)
  Move-linked (enter q) f j s e h k = ground (arith, linked j s e, f.own s e)
  Move-linked cancel f j s e h k = ground (arith, linked j s e, f.own s e)
  Move-linked (unlock q) f j s e h k = ground (arith, linked j s e, f.own s e)
  Move-linked (release {short} {e = d}) f j s e h k = ground (
    arith,
    linked j s e,
    Map.get-delete s short l.tab_cdp_locks,
    str_eq_iff short s,
    f.own short d,
    f.used e,
    counted e,
    le-total (uses e) n (update pc i idle) j h,
    uses_self s e (update pc i idle j) k,
  )
  Move-linked (forget {p} short) f j s e h k = ground (
    arith,
    linked j s e,
    f.own s e,
    Map.get-delete s short l.tab_cdp_locks,
    str_eq_iff short s,
    counted e,
    f.used e,
    le-total (uses e) n (update pc i p) j h,
    uses_self s e (update pc i p j) k,
  )

  pub Move-Inv : {p' : Pc} {l' : TabLocks} → Move l (pc i) l' p' → Inv n l' (update pc i p')
  Move-Inv {p'} mv =
      let f = mover p' in
      record {
        counted = Move-counted mv f;
        token = Move-token mv f;
        unborn = Move-unborn mv f;
        linked = Move-linked mv f;
        named = Move-named mv;
        apart = Move-apart mv;
        live = Move-live mv f;
      }
