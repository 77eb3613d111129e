-- ===== src/Pool/Build.antt =====
-- pkg/daemonclient/pool.go: a pool as its constructor makes it.
use go_bb_browser.Prelude.{
  ℕ, zero, suc, ◌+◌, ◌/◌, ◌%◌, ◌<◌, ◌≡◌, refl, ap, subst, ◌∙◌, ◌≢◌, ◌⊎◌, inl, inr, Bool, true,
  false, some, List, [], ◌∷◌, ◌++◌, arith, Text, codes, str_eq, trim_space, contains, ltb, ◌==◌,
  if◌then◌else◌, length, get_elem?, any, All, Bool-cases, Option-cases, length-append, str_eq_iff,
}
use native.Mathlib.Nat.{mod-lt}
use go_bb_browser.Prelude.{has_prefix}
use go_bb_browser.Prelude.Trim.{IsGraphic, trim_space-graphic, trim_space-trim_space}
use go_bb_browser.Prelude.Map.{get, insert, has, get-insert}
use go_bb_browser.Pool.TabId.{IsKey}
use go_bb_browser.Prelude.Numbers.{digits, itoa, itoa-ne_nil}
use go_bb_browser.Pool.State.{
  Client, PoolBackend, Pool, BuildError, backend_key, add_backend, add_backends, no_backends,
  new_pool_backends, nil_client, empty_base_url, colon_in_key, duplicate_key,
}
use go_bb_browser.Pool.Inv.{IsPool}

digits-All : (fuel n : ℕ) (acc : Text) → All IsGraphic acc → All IsGraphic (digits fuel n acc)
unfolding digits
digits-All zero n acc h = h
digits-All (suc fuel) n acc h =
    let d : n % 10 < 10 = mod-lt n (omega arith) in
    let here : All IsGraphic ((b'0' + n % 10) ∷ acc) = ((omega arith, omega arith), h) in
    if-elim (All IsGraphic) (ltb n 10) here (digits-All fuel (n / 10) ((b'0' + n % 10) ∷ acc) here)
  where
    if-elim :
        {A : Type 0} (P : A → Type 0) (b : Bool) {x y : A} → P x → P y → P (if b then x else y)
    if-elim P true h k = h
    if-elim P false h k = k

trim_space-backend_key : (i : ℕ) (b : PoolBackend) → trim_space (backend_key i b) ≡ backend_key i b
unfolding backend_key itoa
trim_space-backend_key i b = elim (Bool-cases (str_eq (trim_space b.key) [])) [
  | inl e ↦ rw (backend_key, e) (trim_space-graphic (digits 20 i []) (digits-All 20 i [] tt))
  | inr e ↦ rw (backend_key, e) (trim_space-trim_space b.key)
]

backend_key-ne_nil : (i : ℕ) (b : PoolBackend) → backend_key i b ≢ []
unfolding backend_key
backend_key-ne_nil i b n = elim (Bool-cases (str_eq (trim_space b.key) [])) [
  | inl e ↦ itoa-ne_nil i (rw (backend_key, e) at n)
  | inr e ↦ ground (arith, (str_eq_iff (trim_space b.key) []).1 (rw (backend_key, e) at n))
]

contains-colon : (s : Text) → contains s (codes ":") ≡ false → any (λ c. c == b':') s ≡ false
unfolding contains has_prefix
contains-colon [] h = refl
contains-colon (c ∷ []) h = ground arith
contains-colon (c ∷ d ∷ s) h = ground (arith, contains-colon (d ∷ s))

get_elem-snoc :
    (xs : List Text) (x : Text) (i : ℕ) (k : Text)
    → get_elem? (xs ++ x ∷ []) i ≡ some k
    → (get_elem? xs i ≡ some k) ⊎ ((i ≡ length xs) × (x ≡ k))
get_elem-snoc [] x zero k e = inr (omega arith, cc)
get_elem-snoc [] x (suc i) k e = absurd cc
get_elem-snoc (y ∷ xs) x zero k e = inl e
get_elem-snoc (y ∷ xs) x (suc i) k e = elim (get_elem-snoc xs x i k e) [
  | inl h ↦ inl h
  | inr h ↦ inr (let l = h.0 in omega arith, h.1)
]

get_elem-in_range :
    (xs : List Text) (i : ℕ) → i < length xs → (k : Text) × (get_elem? xs i ≡ some k)
get_elem-in_range [] i h = absurd (omega arith)
get_elem-in_range (x ∷ xs) zero h = (x, refl)
get_elem-in_range (x ∷ xs) (suc i) h = get_elem-in_range xs i (omega arith)

-- What the constructor's loop keeps, before round `n`.
record IsPartial (n : ℕ) (p : Pool) : Type 0 where
  clients : length p.clients ≡ n
  keys : length p.keys ≡ n
  key_at : (i : ℕ) (key : Text) → get_elem? p.keys i ≡ some key → get key p.by_key ≡ some i
  is_key : (i : ℕ) (key : Text) → get_elem? p.keys i ≡ some key → IsKey key
  tabs : p.tabs ≡ []

add_backend-IsKey :
    (n : ℕ) (b : PoolBackend)
    → contains (backend_key n b) (codes ":") ≡ false
    → IsKey (backend_key n b)
add_backend-IsKey n b c = record {
  nonempty = backend_key-ne_nil n b;
  no_colon = contains-colon (backend_key n b) c;
  trimmed = trim_space-backend_key n b;
}

extended : ℕ → Text → Client → Pool → Pool
extended n key client p = record p {
  clients = p.clients ++ client ∷ [];
  keys = p.keys ++ key ∷ [];
  by_key = insert key n p.by_key;
  in_flight = p.in_flight ++ 0 ∷ [];
}

extended-IsPartial :
    (n : ℕ) (key : Text) (client : Client) (p : Pool)
    → IsPartial n p
    → IsKey key
    → has key p.by_key ≡ false
    → IsPartial (suc n) (extended n key client p)
unfolding extended
extended-IsPartial n key client p h k new = record {
  clients = omega (arith, length-append p.clients (client ∷ []), h.clients);
  keys = omega (arith, length-append p.keys (key ∷ []), h.keys);
  key_at = λ i key' e. elim (get_elem-snoc p.keys key i key' e) [
    | inl old ↦
        let at = h.key_at i key' old in
        elim (Bool-cases (str_eq key key')) [
          | inl same ↦
              absurd
                (ground (arith, at, ap (λ x. get x p.by_key) ((str_eq_iff key key').0 same), new))
          | inr other ↦ get-insert key' key n p.by_key ∙ rw other at
        ]
    | inr last ↦
        let same : str_eq key key' ≡ true = (str_eq_iff key key').1 last.1 in
        get-insert key' key n p.by_key ∙ rw same (ap some (omega (arith, h.keys, last.0)))
  ];
  is_key = λ i key' e. elim (get_elem-snoc p.keys key i key' e) [
    | inl old ↦ h.is_key i key' old
    | inr last ↦ subst IsKey last.1 k
  ];
  tabs = h.tabs;
}

add_backend-IsPartial :
    (n : ℕ) (b : PoolBackend) (p q : Pool)
    → IsPartial n p
    → add_backend n b p ≡ inr q
    → IsPartial (suc n) q
unfolding add_backend extended
add_backend-IsPartial n b p q h e = elim (Option-cases b.client) [
  | inl c ↦ absurd (let f : inl (nil_client n) ≡ inr q = rw (add_backend, c) at e in cc)
  | inr (client, c) ↦ elim (Bool-cases (str_eq (trim_space client.base_url) [])) [
    | inl u ↦ absurd (let f : inl (empty_base_url n) ≡ inr q = rw (add_backend, c, u) at e in cc)
    | inr u ↦ elim (Bool-cases (contains (backend_key n b) (codes ":"))) [
      | inl k ↦ absurd (
          let f : inl (colon_in_key (backend_key n b)) ≡ inr q = rw (add_backend, c, u, k) at e in
          cc)
      | inr k ↦ elim (Bool-cases (has (backend_key n b) p.by_key)) [
        | inl d ↦ absurd (
            let f : inl (duplicate_key (backend_key n b)) ≡ inr q =
              rw (add_backend, c, u, k, d) at e in
            cc)
        | inr d ↦
            let f : inr (extended n (backend_key n b) client p) ≡ inr q =
              rw (add_backend, c, u, k, d) at e in
            let same : extended n (backend_key n b) client p ≡ q = cc in
            subst (IsPartial (suc n)) same
              (extended-IsPartial n (backend_key n b) client p h (add_backend-IsKey n b k) d)
      ]
    ]
  ]
]

add_backends-IsPartial :
    (n : ℕ) (bs : List PoolBackend) (p q : Pool)
    → IsPartial n p
    → add_backends n bs p ≡ inr q
    → IsPartial (n + length bs) q
unfolding add_backends
add_backends-IsPartial n [] p q h e =
    let same : p ≡ q = cc in
    let more : n ≡ n + 0 = omega arith in
    subst (λ x. IsPartial x q) more (subst (λ x. IsPartial n x) same h)
add_backends-IsPartial n (b ∷ bs) p q h e =
    go (add_backend n b p) refl (λ p'. add_backends-IsPartial (suc n) bs p' q)
  where
    go :
        (r : BuildError ⊎ Pool)
        → add_backend n b p ≡ r
        → ((p' : Pool)
            → IsPartial (suc n) p'
            → add_backends (suc n) bs p' ≡ inr q
            → IsPartial (suc n + length bs) q)
        → IsPartial (n + length (b ∷ bs)) q
    go (inl err) f rest = absurd (let g : inl err ≡ inr q = rw (add_backends, f) at e in cc)
    go (inr p') f rest =
        let more : suc n + length bs ≡ n + suc (length bs) = omega arith in
        subst (λ x. IsPartial x q) more
          (rest p' (add_backend-IsPartial n b p p' h f) (rw (add_backends, f) at e))

no_backends-IsPartial : IsPartial 0 no_backends
no_backends-IsPartial = record {
  clients = refl;
  keys = refl;
  key_at = λ i key e. absurd cc;
  is_key = λ i key e. absurd cc;
  tabs = refl;
}

-- A pool that the constructor returns is well formed: it has a backend, its keys name their own
-- places, and each is nonempty, free of colons and its own strings.TrimSpace. Its tab map is empty.
pub new_pool_backends-IsPool :
    (bs : List PoolBackend) (p : Pool) → new_pool_backends bs ≡ inr p → IsPool p × (p.tabs ≡ [])
unfolding new_pool_backends
new_pool_backends-IsPool [] p e = absurd cc
new_pool_backends-IsPool (b ∷ bs) p e =
    let h = add_backends-IsPartial 0 (b ∷ bs) no_backends p no_backends-IsPartial e in
    let pool : IsPool p = record {
      nonempty = omega (arith, h.clients);
      in_range = λ i l. get_elem-in_range p.keys i (omega (arith, h.clients, h.keys));
      key_at = h.key_at;
      is_key = h.is_key;
      owned = λ t i q.
          absurd (let f : get t [] ≡ some i = subst (λ m. get t m ≡ some i) h.tabs q in cc);
    } in
    (pool, h.tabs)
