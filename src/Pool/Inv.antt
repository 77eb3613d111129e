-- ===== src/Pool/Inv.antt =====
-- pkg/daemonclient/pool.go: what every call keeps of a Pool, and that the steps of a call keep it.
use native.Mathlib.Nat.{mod-lt}
use go_bb_browser.Prelude.{
  ℕ, zero, suc, ◌+◌, ◌-◌, ◌%◌, ◌^◌, ◌<◌, ◌≡◌, refl, sym, ap, subst, ◌∙◌, ◌⊎◌, inl, inr, false, none,
  some, List, [], ◌∷◌, arith, Text, str_eq, trim_space, ◌==◌, length, get_elem?, All, Bool-cases,
  Option-cases, str_eq_iff,
}
use go_bb_browser.Prelude.Trim.{space_back-trim_space}
use go_bb_browser.Prelude.Map.{Map, get, insert, get-insert, get-delete}
use go_bb_browser.Pool.TabId.{
  format_tab_id, split_tab_id, IsKey, IsShort, trim_space-format, split-format,
}
use go_bb_browser.Pool.State.{Pool}
use go_bb_browser.Pool.Tabs.{bind, unbind, bind_observed_tabs}
use go_bb_browser.Pool.Walk.{track, hold, update, order, walk_from, least_loop, load, int_rem}
use go_bb_browser.Pool.Codec.{prefix_pool_tab}

-- A trimmed id that names backend `i`.
pub record Names (by_key : Map ℕ) (t : Text) (i : ℕ) : Type 0 where
  pub key : Text
  pub short : Text
  pub trimmed : trim_space t ≡ t
  pub splits : split_tab_id t ≡ some (key, short)
  pub is_member : get key by_key ≡ some i

-- The keys name their own places, and every tab in the map is at the backend that its id names.
pub record IsPool (p : Pool) : Type 0 where
  pub nonempty : 0 < length p.clients
  pub in_range : (i : ℕ) → i < length p.clients → (key : Text) × (get_elem? p.keys i ≡ some key)
  pub key_at : (i : ℕ) (key : Text) → get_elem? p.keys i ≡ some key → get key p.by_key ≡ some i
  pub is_key : (i : ℕ) (key : Text) → get_elem? p.keys i ≡ some key → IsKey key
  pub owned : (t : Text) (i : ℕ) → get t p.tabs ≡ some i → Names p.by_key t i

-- From one state of a pool to a later one: it is a pool, of the same backends and loads.
pub record Keeps (p : Pool) (p' : Pool) : Type 0 where
  pub is_pool : IsPool p'
  pub clients : p'.clients ≡ p.clients
  pub by_key : p'.by_key ≡ p.by_key
  pub keys : p'.keys ≡ p.keys
  pub in_flight : p'.in_flight ≡ p.in_flight

pub Keeps-refl : (p : Pool) → IsPool p → Keeps p p
Keeps-refl p h = record {
  is_pool = h;
  clients = refl;
  by_key = refl;
  keys = refl;
  in_flight = refl;
}

pub Keeps-trans : (p q r : Pool) → Keeps p q → Keeps q r → Keeps p r
Keeps-trans p q r a b = record {
  is_pool = b.is_pool;
  clients = b.clients ∙ a.clients;
  by_key = b.by_key ∙ a.by_key;
  keys = b.keys ∙ a.keys;
  in_flight = b.in_flight ∙ a.in_flight;
}

update-undo : (i : ℕ) (xs : List ℕ) → update i (λ n. n - 1) (update i (λ n. n + 1) xs) ≡ xs
update-undo i [] = refl
update-undo zero (x ∷ xs) = ap (λ y. y ∷ xs) (omega arith)
update-undo (suc i) (x ∷ xs) = ap (λ ys. x ∷ ys) (update-undo i xs)

-- Only the counters change between a pool and the pool with one call more in flight.
pub hold-track : (i : ℕ) (p : Pool) → hold i (track i p) ≡ p
unfolding hold track
hold-track i p = ap (λ xs. record p { in_flight = xs }) (update-undo i p.in_flight)

-- What TrimSpace leaves, if anything, is a daemon's short id.
pub trim_space-IsShort : (s : Text) → str_eq (trim_space s) [] ≡ false → IsShort (trim_space s)
trim_space-IsShort s h = record {
  nonempty = λ e. ground (arith, (str_eq_iff (trim_space s) []).1 e);
  trimmed = space_back-trim_space s;
}

-- The id that a pool makes of a backend's key and what the daemon calls the tab names this backend.
pub format-Names :
    (p : Pool) (i : ℕ) (key s : Text)
    → IsPool p
    → get_elem? p.keys i ≡ some key
    → IsShort s
    → Names p.by_key (format_tab_id key s) i
format-Names p i key s h at short = record {
  key = key;
  short = s;
  trimmed = trim_space-format key s (h.is_key i key at) short;
  splits = split-format key s (h.is_key i key at) short;
  is_member = h.key_at i key at;
}

pub prefix-Names :
    (p : Pool) (i : ℕ) (key s : Text)
    → IsPool p
    → get_elem? p.keys i ≡ some key
    → (prefix_pool_tab key s ≡ []) ⊎ Names p.by_key (prefix_pool_tab key s) i
unfolding prefix_pool_tab
prefix-Names p i key s h at = elim (Bool-cases (str_eq (trim_space s) [])) [
  | inl e ↦ inl (rw e)
  | inr e ↦ inr (rw e (format-Names p i key (trim_space s) h at (trim_space-IsShort s e)))
]

insert-IsPool :
    (p : Pool) (t : Text) (i : ℕ)
    → IsPool p
    → Names p.by_key t i
    → Keeps p (record p { tabs = insert t i p.tabs })
insert-IsPool p t i h n = record {
  is_pool = record {
    nonempty = h.nonempty;
    in_range = h.in_range;
    key_at = h.key_at;
    is_key = h.is_key;
    owned = λ u j e. elim (Bool-cases (str_eq t u)) [
      | inl same ↦
          let found : get u (insert t i p.tabs) ≡ some i = get-insert u t i p.tabs ∙ rw same in
          let which : i ≡ j = ground (arith, found, e) in
          subst (λ x. Names p.by_key u x) which
            (subst (λ x. Names p.by_key x i) ((str_eq_iff t u).0 same) n)
      | inr other ↦
          let found : get u (insert t i p.tabs) ≡ get u p.tabs =
            get-insert u t i p.tabs ∙ rw other in
          h.owned u j (sym found ∙ e)
    ];
  };
  clients = refl;
  by_key = refl;
  keys = refl;
  in_flight = refl;
}

-- Binding an id to the backend that it names keeps the pool, whatever the map holds.
pub bind-Keeps :
    (p : Pool) (t : Text) (i : ℕ)
    → IsPool p
    → Names p.by_key (trim_space t) i
    → Keeps p (bind t i p).1
unfolding bind
bind-Keeps p t i h n = elim (Bool-cases (str_eq (trim_space t) [])) [
  | inl e ↦ rw (bind, e) (Keeps-refl p h)
  | inr e ↦ elim (Option-cases (get (trim_space t) p.tabs)) [
    | inl q ↦ rw (bind, e, q) (insert-IsPool p (trim_space t) i h n)
    | inr (prev, q) ↦ elim (Bool-cases (prev == i)) [
      | inl same ↦ rw (bind, e, q, same) (insert-IsPool p (trim_space t) i h n)
      | inr other ↦ rw (bind, e, q, other) (Keeps-refl p h)
    ]
  ]
]

pub unbind-Keeps : (p : Pool) (t : Text) → IsPool p → Keeps p (unbind t p)
unfolding unbind
unbind-Keeps p t h = elim (Bool-cases (str_eq (trim_space t) [])) [
  | inl e ↦ rw (unbind, e) (Keeps-refl p h)
  | inr e ↦
      rw (unbind, e)
        (record {
          is_pool = record {
            nonempty = h.nonempty;
            in_range = h.in_range;
            key_at = h.key_at;
            is_key = h.is_key;
            owned = λ u j q. h.owned u j (ground (arith, get-delete u (trim_space t) p.tabs, q));
          };
          clients = refl;
          by_key = refl;
          keys = refl;
          in_flight = refl;
        })
]

-- Ids that a daemon reports, each made of its key, or empty.
pub bind_observed-Keeps :
    (i : ℕ) (ts : List Text) (p : Pool)
    → IsPool p
    → All (λ t. (t ≡ []) ⊎ Names p.by_key t i) ts
    → Keeps p (bind_observed_tabs i ts p)
unfolding bind_observed_tabs str_eq trim_space
bind_observed-Keeps i [] p h a = Keeps-refl p h
bind_observed-Keeps i (t ∷ ts) p h a = elim a.0 [
  | inl e ↦ rw (e) (bind_observed-Keeps i ts p h a.1)
  | inr n ↦ elim (Bool-cases (str_eq (trim_space t) [])) [
    | inl e ↦ rw (bind_observed_tabs, e) (bind_observed-Keeps i ts p h a.1)
    | inr e ↦
        let same = n.trimmed in
        let k = bind-Keeps p (trim_space t) i h (
          subst (λ x. Names p.by_key (trim_space x) i) (sym same)
            (subst (λ x. Names p.by_key x i) (sym same) n)) in
        let q = (bind (trim_space t) i p).1 in
        rw (bind_observed_tabs, e)
          (Keeps-trans p q (bind_observed_tabs i ts q) k (
            bind_observed-Keeps i ts q k.is_pool
              (subst (λ m. All (λ t. (t ≡ []) ⊎ Names m t i) ts) (sym k.by_key) a.1)))
  ]
]

rr-Keeps : (p : Pool) (r : ℕ) → IsPool p → Keeps p (record p { rr = r })
rr-Keeps p r h = record {
  is_pool = record {
    nonempty = h.nonempty;
    in_range = h.in_range;
    key_at = h.key_at;
    is_key = h.is_key;
    owned = h.owned;
  };
  clients = refl;
  by_key = refl;
  keys = refl;
  in_flight = refl;
}

order-cases :
    (p : Pool)
    → ((order p).0 ≡ none)
      ⊎ ((best : ℕ) × ((order p).0 ≡ some (walk_from (length p.clients) best (length p.clients) 0)))
unfolding order
order-cases p = elim (Option-cases (int_rem p.rr (length p.clients))) [
  | inl e ↦ inl (rw (order, e) refl)
  | inr (start, e) ↦
      let n = length p.clients in
      inr (
        least_loop p.in_flight n start (n - 1) 1 start (load p.in_flight start),
        rw (order, e) refl,
      )
]

pub order-Keeps : (p : Pool) → IsPool p → Keeps p (order p).1
unfolding order
order-Keeps p h = elim (Option-cases (int_rem p.rr (length p.clients))) [
  | inl e ↦ rw (order, e) (rr-Keeps p ((p.rr + 1) % 2 ^ 64) h)
  | inr (start, e) ↦ rw (order, e) (rr-Keeps p ((p.rr + 1) % 2 ^ 64) h)
]

walk_from-in_range : (n best left i : ℕ) → 0 < n → All (λ j. j < n) (walk_from n best left i)
unfolding walk_from
walk_from-in_range n best zero i h = tt
walk_from-in_range n best (suc left) i h =
    (mod-lt (best + i) h, walk_from-in_range n best left (i + 1) h)

pub order-in_range :
    (p : Pool) (is : List ℕ) → IsPool p → (order p).0 ≡ some is → All (λ j. j < length p.clients) is
order-in_range p is h e = elim (order-cases p) [
  | inl n ↦ absurd cc
  | inr (best, q) ↦
      let same : walk_from (length p.clients) best (length p.clients) 0 ≡ is = cc in
      subst (λ xs. All (λ j. j < length p.clients) xs) same
        (walk_from-in_range (length p.clients) best (length p.clients) 0 h.nonempty)
]
