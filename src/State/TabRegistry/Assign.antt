-- ===== src/State/TabRegistry/Assign.antt =====
-- `assignShortLocked` of internal/state/tab_registry.go on ids as Chrome makes them.
use go_bb_browser.Prelude.{
  ℕ, zero, suc, ◌+◌, ◌-◌, ◌≤◌, ◌<◌, ◌≡◌, ◌≢◌, ap, subst, ◌∙◌, sym, true, false, ◌||◌, Option, none,
  some, [], Text, arith, length, drop, length-drop, All, All-drop, trim_space, str_eq, str_eq_iff,
  Bool-cases, Option-cases, inl, inr, if◌then◌else◌,
}
use native.Mathlib.Decide.{ℕ_discrete}
use go_bb_browser.Prelude.Map.{get-insert}
use go_bb_browser.Prelude.Map
use go_bb_browser.State.TabRegistry.{
  TabRegistry, hex_runes, suffix, find_free, taken_by_other, choose_short, assign_short_locked,
  register_locked, register_page_target, lookup, short_for_target, new_tab_registry,
}
use go_bb_browser.State.TabRegistry.Inv.{
  IsConsistent, register_locked-IsConsistent, new-IsConsistent,
}
use go_bb_browser.State.TabRegistry.Short.{
  IsCdpId, is_short_digit, length-hex_runes, hex_runes-digits, hex_runes-injective,
  trim_space-digits,
}

-- Every short id is a suffix, of 4 digits or more, of the digits of its target.
abbrev pub IsSuffixOf : Text → Text → Type 0
IsSuffixOf s id = (n : ℕ) × (4 ≤ n) × (n ≤ 32) × (s ≡ suffix n (hex_runes id))

pub record IsRegistry (r : TabRegistry) : Type 0 where
  pub consistent : IsConsistent r
  pub canonical :
      (id s : Text) → Map.get id r.target_to_short ≡ some s → IsCdpId id × IsSuffixOf s id

suffix_whole : (n : ℕ) (s t : Text) → length s ≡ length t → s ≡ suffix n t → s ≡ t
suffix_whole n s t l e =
    let k : length t - n ≡ 0 = omega (arith, ap length e, length-drop (length t - n) t, l) in
    e ∙ ap (λ x. drop x t) k

not_taken :
    (r : TabRegistry) (id s : Text)
    → ((oid : Text) → Map.get s r.short_to_target ≡ some oid → oid ≡ id)
    → taken_by_other r id s ≡ false
unfolding taken_by_other
not_taken r id s h = elim (Option-cases (Map.get s r.short_to_target)) [
  | inl e ↦ ground arith
  | inr (oid, e) ↦ ground (arith, h oid e, str_eq_iff oid id)
]

suffix_self : (s : Text) → suffix (length s) s ≡ s
suffix_self s = let k : length s - length s ≡ 0 = omega arith in ap (λ x. drop x s) k

-- No other target has all the digits of `id`.
whole_free :
    (r : TabRegistry) (id : Text)
    → IsRegistry r
    → IsCdpId id
    → taken_by_other r id (suffix (length (hex_runes id)) (hex_runes id)) ≡ false
whole_free r id v cdp = not_taken r id _ λ oid e.
    let (other, made) = v.canonical oid _ (v.consistent.target_of _ oid e) in
    let (n, lo, hi, q) = made in
    let all = sym (suffix_self (hex_runes id)) ∙ q in
    let digits : length (hex_runes id) ≡ length (hex_runes oid) =
      omega (arith, length-hex_runes id cdp.1, length-hex_runes oid other.1) in
    sym (
      hex_runes-injective id oid cdp.1 other.1
        (suffix_whole n (hex_runes id) (hex_runes oid) digits all))

-- What the search finds from `n` on: the shortest suffix that is free.
abbrev pub Finds : TabRegistry → Text → Text → ℕ → Option Text → Type 0
Finds r id hex n found =
    (m : ℕ) × (n ≤ m)
    × (m ≤ length hex)
    × (found ≡ some (suffix m hex))
    × (taken_by_other r id (suffix m hex) ≡ false)
    × ((j : ℕ) → n ≤ j → j < m → taken_by_other r id (suffix j hex) ≡ true)

find_free-Finds :
    (r : TabRegistry) (id hex : Text) (k n : ℕ)
    → n + k ≡ length hex + 1
    → n ≤ length hex
    → taken_by_other r id (suffix (length hex) hex) ≡ false
    → Finds r id hex n (find_free r id hex k n)
unfolding find_free
find_free-Finds r id hex zero n e h free = absurd (omega arith)
find_free-Finds r id hex (suc k) n e h free =
    elim (Bool-cases (taken_by_other r id (suffix n hex))) [
      | inl taken ↦
          let later : n ≢ length hex = λ q. cc (ap (λ x. taken_by_other r id (suffix x hex)) q) in
          let (m, le, top, found, ok, before) =
            find_free-Finds r id hex k (n + 1) (omega arith) (omega arith) free in
          (
            m,
            omega arith,
            top,
            rw taken found,
            ok,
            λ j a b. elim (ℕ_discrete n j) [
              | yes q ↦ subst (λ x. taken_by_other r id (suffix x hex) ≡ true) q taken
              | no q ↦ before j (omega arith) b
            ],
          )
      | inr ok ↦ (n, omega arith, h, rw ok, ok, λ j a b. absurd (omega arith))
    ]

module _ (r : TabRegistry) (id : Text) (v : IsRegistry r) (cdp : IsCdpId id) where
  digits : length (hex_runes id) ≡ 32
  digits = length-hex_runes id cdp.1 ∙ cdp.0

  choose_short-Finds : Finds r id (hex_runes id) 4 (some (choose_short r id))
  unfolding choose_short
  choose_short-Finds =
      let hex = hex_runes id in
      let (m, le, top, found, ok, before) =
        find_free-Finds r id hex (length hex + 1 - 4) 4 (omega (arith, digits))
          (omega (arith, digits)) (whole_free r id v cdp) in
      (m, le, top, ground (arith, digits), ok, before)

  choose_short-free :
      Map.get id r.target_to_short ≡ none → Map.get (choose_short r id) r.short_to_target ≡ none
  unfolding taken_by_other
  choose_short-free new =
      let (m, le, top, found, ok, before) = choose_short-Finds in
      elim (Option-cases (Map.get (choose_short r id) r.short_to_target)) [
        | inl e ↦ e
        | inr (oid, e) ↦
            ground (arith, v.consistent.target_of (choose_short r id) oid e, str_eq_iff oid id)
      ]

  added :
      (i s : Text)
      → (if str_eq id i then some (choose_short r id) else Map.get i r.target_to_short) ≡ some s
      → IsCdpId i × IsSuffixOf s i
  added i s e = elim (Bool-cases (str_eq id i)) [
    | inl q ↦
        let (m, le, top, found, ok, before) = choose_short-Finds in
        let same = (str_eq_iff id i).0 q in
        let short : s ≡ suffix m (hex_runes id) = ground arith in
        (
          subst IsCdpId same cdp,
          (m, le, omega (arith, digits), subst (λ x. s ≡ suffix m (hex_runes x)) same short),
        )
    | inr q ↦ v.canonical i s (ground arith)
  ]

  register-new-IsRegistry :
      Map.get id r.target_to_short ≡ none → IsRegistry (register_locked r id (choose_short r id))
  unfolding register_locked
  register-new-IsRegistry new = record {
    consistent =
        register_locked-IsConsistent r id (choose_short r id) new (choose_short-free new)
          v.consistent;
    canonical =
        λ i s e. added i s (sym (get-insert i id (choose_short r id) r.target_to_short) ∙ e);
  }

-- Registering a target keeps the two maps inverse to one another and every short id a suffix of 4
-- digits or more of its target's digits, where all ids are as Chrome makes them.
pub register_page_target-IsRegistry :
    (r : TabRegistry) (id : Text)
    → IsRegistry r
    → IsCdpId id
    → IsRegistry (register_page_target r id).1
unfolding register_page_target assign_short_locked
register_page_target-IsRegistry r id v cdp = elim (Option-cases (Map.get id r.target_to_short)) [
  | inl e ↦ rw (e, assign_short_locked) (register-new-IsRegistry r id v cdp e)
  | inr (s, e) ↦ rw (e, assign_short_locked) v
]

short-IsDigits :
    (r : TabRegistry) (id s : Text)
    → IsRegistry r
    → Map.get id r.target_to_short ≡ some s
    → (trim_space s ≡ s) × (s ≢ []) × (id ≢ [])
short-IsDigits r id s v e =
    let (cdp, made) = v.canonical id s e in
    let (n, lo, hi, q) = made in
    let len : length s ≡ length (suffix n (hex_runes id)) = ap length q in
    let d = length-hex_runes id cdp.1 in
    let l = length-drop (length (hex_runes id) - n) (hex_runes id) in
    (
      trim_space-digits s (
          subst (All (λ c. is_short_digit c ≡ true)) (sym q)
            (All-drop _ _ (hex_runes id) (hex_runes-digits id))),
      (λ z. absurd (omega (arith, len, ap length z, d, l, cdp.0))),
      (λ z. absurd (omega (arith, ap length z, cdp.0))),
    )

-- In a registry that meets the invariant, a registered target is found under its short id and has
-- it as its short id.
pub lookup-short :
    (r : TabRegistry) (id s : Text)
    → IsRegistry r
    → Map.get id r.target_to_short ≡ some s
    → (lookup r s ≡ some id) × (short_for_target r id ≡ some s)
unfolding lookup short_for_target
lookup-short r id s v e = ground (
  arith,
  short-IsDigits r id s v e,
  v.consistent.short_of id s e,
  str_eq_iff s [],
  str_eq_iff id [],
)

pub lookup-short_for_target :
    (r : TabRegistry) (id s : Text)
    → IsRegistry r
    → short_for_target r id ≡ some s
    → lookup r s ≡ some id
unfolding short_for_target
lookup-short_for_target r id s v e = (lookup-short r id s v (ground arith)).0

pub get-register :
    (r : TabRegistry) (id : Text)
    → Map.get id (register_page_target r id).1.target_to_short ≡ some (register_page_target r id).0
unfolding register_page_target assign_short_locked register_locked
get-register r id =
    ground (arith, get-insert id id (choose_short r id) r.target_to_short, str_eq_iff id id)

pub register-keeps :
    (r : TabRegistry) (id j t : Text)
    → Map.get j r.target_to_short ≡ some t
    → Map.get j (register_page_target r id).1.target_to_short ≡ some t
unfolding register_page_target assign_short_locked register_locked
register-keeps r id j t e =
    ground (arith, get-insert j id (choose_short r id) r.target_to_short, str_eq_iff id j)

-- Registering a target as Chrome names them returns a short id under which exactly that target is
-- found afterwards, and leaves the short id of every target that was registered before.
pub lookup-register :
    (r : TabRegistry) (id : Text)
    → IsRegistry r
    → IsCdpId id
    → let (short, r') = register_page_target r id in
      (lookup r' short ≡ some id)
      × (short_for_target r' id ≡ some short)
      × ((j t : Text)
          → Map.get j r.target_to_short ≡ some t
          → Map.get j r'.target_to_short ≡ some t)
lookup-register r id v cdp =
    let (found, back) =
      lookup-short (register_page_target r id).1 id (register_page_target r id).0
        (register_page_target-IsRegistry r id v cdp) (get-register r id) in
    (found, back, register-keeps r id)

-- A new target as Chrome names them gets the shortest suffix of its digits, of 4 or more, that is
-- not the short id of another target.
pub register-shortest :
    (r : TabRegistry) (id : Text)
    → IsRegistry r
    → IsCdpId id
    → Map.get id r.target_to_short ≡ none
    → Finds r id (hex_runes id) 4 (some (register_page_target r id).0)
unfolding register_page_target assign_short_locked
register-shortest r id v cdp e = rw (e, assign_short_locked) (choose_short-Finds r id v cdp)

pub new-IsRegistry : IsRegistry new_tab_registry
unfolding new_tab_registry Map.get
new-IsRegistry = record { consistent = new-IsConsistent; canonical = λ id s e. cc }

pub register-others :
    (r : TabRegistry) (id j : Text)
    → Map.has j (register_page_target r id).1.target_to_short
      ≡ (str_eq id j || Map.has j r.target_to_short)
unfolding register_page_target assign_short_locked register_locked
register-others r id j =
    ground (arith, get-insert j id (choose_short r id) r.target_to_short, str_eq_iff id j)
