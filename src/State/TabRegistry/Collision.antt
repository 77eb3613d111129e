-- ===== src/State/TabRegistry/Collision.antt =====
-- Where `assignShortLocked` of internal/state/tab_registry.go gives one short id to two targets:
-- fewer than four hexadecimal digits leave its search no candidate, and the digits are registered
-- whether another target has them or not.
use go_bb_browser.Prelude.{◌+◌, ◌-◌, ◌<◌, ◌≡◌, ◌≢◌, ap, none, some, Text, arith, length, str_eq_iff}
use go_bb_browser.Prelude.Map.{get-insert}
use go_bb_browser.Prelude.Map
use go_bb_browser.State.TabRegistry.{
  TabRegistry, hex_runes, choose_short, find_free, assign_short_locked, register_locked,
  register_page_target,
}

choose_short-few :
    (r : TabRegistry) (id : Text)
    → 0 < length (hex_runes id)
    → length (hex_runes id) < 4
    → choose_short r id ≡ hex_runes id
unfolding choose_short find_free
choose_short-few r id a b =
    let rounds : length (hex_runes id) + 1 - 4 ≡ 0 = omega arith in rw rounds (ground arith)

-- Two different new targets with the same hexadecimal digits, of which there are one to three, get
-- the same short id, and from then on it leads to the second target only.
pub register-collision :
    (r : TabRegistry) (a b : Text)
    → a ≢ b
    → hex_runes a ≡ hex_runes b
    → 0 < length (hex_runes a)
    → length (hex_runes a) < 4
    → Map.get a r.target_to_short ≡ none
    → Map.get b r.target_to_short ≡ none
    → let (first, r') = register_page_target r a in
      let (second, r'') = register_page_target r' b in
      (first ≡ second)
      × (Map.get a r''.target_to_short ≡ some first)
      × (Map.get first r''.short_to_target ≡ some b)
unfolding register_page_target assign_short_locked register_locked
register-collision r a b ne same lo hi na nb =
    let r' = register_locked r a (choose_short r a) in
    ground (
      arith,
      choose_short-few r a lo hi,
      choose_short-few r' b (omega (arith, ap length same)) (omega (arith, ap length same)),
      get-insert b a (choose_short r a) r.target_to_short,
      get-insert a b (choose_short r' b) r'.target_to_short,
      get-insert a a (choose_short r a) r.target_to_short,
      get-insert (choose_short r a) (choose_short r' b) b r'.short_to_target,
      str_eq_iff a b,
      str_eq_iff b a,
      str_eq_iff a a,
      str_eq_iff (choose_short r' b) (choose_short r a),
    )
