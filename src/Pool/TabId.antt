-- ===== src/Pool/TabId.antt =====
-- The tab ids of pkg/daemonclient/pool.go, `<backendKey>:<daemonShortId>`.
use mathlib.Core.List.{reverse-append, reverse-cons, reverse-reverse, append_assoc}
use go_bb_browser.Prelude.{
  cut, sym, ◌≡◌, ◌≢◌, refl, ap, ◌∙◌, false, ◌||◌, [], ◌∷◌, ◌++◌, reverse, Option, none, some, Text,
  arith, ◌==◌, str_eq, trim_space, space_front, space_back, any, if◌then◌else◌,
}
use go_bb_browser.Prelude.Trim.{trim_space-of_trimmed, space_front-trim_space}

unfoldable pub format_tab_id : Text → Text → Text
format_tab_id key short = key ++ b':' ∷ short

unfoldable pub split_tab_id : Text → Option (Text × Text)
unfolding cut
split_tab_id tab = elim (cut b':' (trim_space tab)) [
  | none ↦ none
  | some (key, short) ↦ if str_eq key [] || str_eq short [] then none else some (key, short)
]

-- A key as the constructor of a pool lets it through: nonempty, with no colon, trimmed.
pub record IsKey (key : Text) : Type 0 where
  pub nonempty : key ≢ []
  pub no_colon : any (λ c. c == b':') key ≡ false
  pub trimmed : trim_space key ≡ key

-- A daemon's short id: nonempty, with no white space at its end.
pub record IsShort (short : Text) : Type 0 where
  pub nonempty : short ≢ []
  pub trimmed : space_back (reverse short) ≡ 0

cut-key :
    (key s : Text) → any (λ c. c == b':') key ≡ false → cut b':' (key ++ b':' ∷ s) ≡ some (key, s)
unfolding cut
cut-key [] s h = ground arith
cut-key (c ∷ key) s h = ground (arith, cut-key key s)

-- A colon is no part of a longer white space.
space_front-append : (s r : Text) → s ≢ [] → space_front s ≡ 0 → space_front (s ++ b':' ∷ r) ≡ 0
unfolding space_front
space_front-append [] r n h = absurd (n refl)
space_front-append (a ∷ []) [] n h = ground arith
space_front-append (a ∷ []) (d ∷ r) n h = ground arith
space_front-append (a ∷ b ∷ []) r n h = ground arith
space_front-append (a ∷ b ∷ c ∷ s) r n h = ground arith

space_back-append : (s r : Text) → s ≢ [] → space_back s ≡ 0 → space_back (s ++ b':' ∷ r) ≡ 0
unfolding space_back
space_back-append [] r n h = absurd (n refl)
space_back-append (a ∷ []) [] n h = ground arith
space_back-append (a ∷ []) (d ∷ r) n h = ground arith
space_back-append (a ∷ b ∷ []) r n h = ground arith
space_back-append (a ∷ b ∷ c ∷ s) r n h = ground arith

reverse-format : (key s : Text) → reverse (format_tab_id key s) ≡ reverse s ++ b':' ∷ reverse key
unfolding format_tab_id
reverse-format key s =
    reverse-append key (b':' ∷ s)
    ∙ ap (λ x. x ++ reverse key) (reverse-cons b':' s)
    ∙ append_assoc (reverse s) (b':' ∷ []) (reverse key)

reverse-ne_nil : (s : Text) → s ≢ [] → reverse s ≢ []
reverse-ne_nil s n e = n (sym (reverse-reverse s) ∙ ap reverse e)

key-front : (key : Text) → IsKey key → space_front key ≡ 0
key-front key k = ap space_front (sym k.trimmed) ∙ space_front-trim_space key

pub trim_space-format :
    (key s : Text) → IsKey key → IsShort s → trim_space (format_tab_id key s) ≡ format_tab_id key s
unfolding format_tab_id
trim_space-format key s k h =
    trim_space-of_trimmed (format_tab_id key s)
      (space_front-append key s k.nonempty (key-front key k))
      (ap space_back (reverse-format key s)
        ∙ space_back-append (reverse s) (reverse key) (reverse-ne_nil s h.nonempty) h.trimmed)

cut-format :
    (key s : Text)
    → any (λ c. c == b':') key ≡ false
    → cut b':' (format_tab_id key s) ≡ some (key, s)
unfolding format_tab_id
cut-format key s h = cut-key key s h

split_tab_id-cut :
    (tab key s : Text)
    → cut b':' (trim_space tab) ≡ some (key, s)
    → key ≢ []
    → s ≢ []
    → split_tab_id tab ≡ some (key, s)
unfolding split_tab_id str_eq
split_tab_id-cut tab [] s e n m = absurd (n refl)
split_tab_id-cut tab (c ∷ key) [] e n m = absurd (m refl)
split_tab_id-cut tab (c ∷ key) (d ∷ s) e n m = rw (split_tab_id, e)

-- An id that a pool makes of one of its keys and a daemon's short id splits into just these two.
pub split-format :
    (key s : Text) → IsKey key → IsShort s → split_tab_id (format_tab_id key s) ≡ some (key, s)
split-format key s k h =
    split_tab_id-cut (format_tab_id key s) key s
      (ap (cut b':') (trim_space-format key s k h) ∙ cut-format key s k.no_colon) k.nonempty
      h.nonempty
