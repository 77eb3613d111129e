-- ===== src/Browser/Errors/Wrapping.antt =====
-- internal/browser/errors.go: what wrapping an error keeps, and which errors end the daemon.
use go_bb_browser.Prelude.{
  ◌≡◌, refl, ap, sym, subst, str_eq_iff, has_prefix, ◌∙◌, true, Option, none, some, List, [], ◌∷◌,
  ◌++◌, arith, Text, codes, str_eq, contains, lower, to_lower, inl, inr, Bool-cases, Option-cases,
}
use mathlib.Core.List.{map-append, append_assoc}
use go_bb_browser.State.Target.{in_set}
use go_bb_browser.Browser.Errors.{
  ErrorKind, GoError, plain, cdp, place_of, error_text, typed_kind, is_deadline, is_canceled,
  mentions, kind_of_text, error_kind_of, wrap_cdp_error, lost_words, is_cdp_session_lost,
}

-- Wrapping an error keeps its kind, whatever the error is; and what is wrapped once is not wrapped
-- again, so that an error keeps the operation and the target of the call that met it first.
pub wrap_cdp_error_lem :
    (op target op' target' : Text) (e : Option GoError)
    → (error_kind_of (wrap_cdp_error op target e) ≡ error_kind_of e)
      × (wrap_cdp_error op' target' (wrap_cdp_error op target e) ≡ wrap_cdp_error op target e)
unfolding wrap_cdp_error error_kind_of typed_kind
wrap_cdp_error_lem op target op' target' none = (refl, refl)
wrap_cdp_error_lem op target op' target' (some e) = elim (Option-cases (typed_kind e)) [
  | inl raw ↦ (ground arith, ground arith)
  | inr (k, typed) ↦ (ground arith, ground arith)
]

contains-prefix : (s m w : Text) → contains m w ≡ true → contains (s ++ m) w ≡ true
unfolding contains
contains-prefix [] m w h = h
contains-prefix (c ∷ s) m w h = ground (arith, contains-prefix s m w h)

mentions-prefix :
    (words : List Text) (s m : Text) → mentions words m ≡ true → mentions words (s ++ m) ≡ true
unfolding mentions
mentions-prefix [] s m h = h
mentions-prefix (w ∷ words) s m h = ground (arith, contains-prefix s m w, mentions-prefix words s m)

-- The text that wrapping puts in front of a message.
wrapped_text :
    (k : ErrorKind) (op target m : Text)
    → (s : Text) × (error_text (cdp k op target (plain m)) ≡ s ++ m)
unfolding error_text
wrapped_text k op target m = elim (Bool-cases (str_eq (place_of op target) [])) [
  | inl e ↦ ([], rw e refl)
  | inr e ↦ (
    place_of op target ++ codes ": ",
    rw e (ap (λ (t : Text). t) (sym (append_assoc (place_of op target) (codes ": ") m))),
  )
]

-- A CDP call that fails with a message of its own is taken for the loss of the browser, and ends the
-- daemon, whenever the message has one of the words for it in any case, whatever else it says.
pub wrapped-is_cdp_session_lost :
    (op target m : Text)
    → mentions lost_words (to_lower m) ≡ true
    → is_cdp_session_lost (wrap_cdp_error op target (some (plain m))) ≡ true
unfolding wrap_cdp_error is_cdp_session_lost error_kind_of typed_kind is_canceled is_deadline
wrapped-is_cdp_session_lost op target m h =
    let k = kind_of_text (to_lower m) in
    let (s, e) = wrapped_text k op target m in
    let lowered : to_lower (error_text (cdp k op target (plain m))) ≡ to_lower s ++ to_lower m =
      ap to_lower e ∙ map-append lower s m in
    let found : mentions lost_words (to_lower (error_text (cdp k op target (plain m)))) ≡ true =
      rw lowered (mentions-prefix lost_words (to_lower s) (to_lower m) h) in
    ground arith

has_prefix-append : (w post : Text) → has_prefix (w ++ post) w ≡ true
unfolding has_prefix
has_prefix-append [] post = refl
has_prefix-append (c ∷ w) post = ground (arith, has_prefix-append w post)

contains-here : (w post : Text) → contains (w ++ post) w ≡ true
unfolding contains has_prefix
contains-here [] [] = refl
contains-here [] (c ∷ post) = refl
contains-here (c ∷ w) post = ground (arith, has_prefix-append w post)

pub plain-is_cdp_session_lost :
    (m : Text)
    → mentions lost_words (to_lower m) ≡ true
    → is_cdp_session_lost (some (plain m)) ≡ true
unfolding is_cdp_session_lost error_kind_of typed_kind is_canceled is_deadline error_text
plain-is_cdp_session_lost m h = ground (arith, h)

-- A text mentions any of the words that stands in it.
pub mentions-within :
    (words : List Text) (pre w post : Text)
    → in_set words w ≡ true
    → mentions words (pre ++ (w ++ post)) ≡ true
unfolding mentions
mentions-within [] pre w post h = absurd cc
mentions-within (x ∷ words) pre w post h = elim (Bool-cases (str_eq x w)) [
  | inl e ↦
      let here : contains (pre ++ (w ++ post)) x ≡ true =
        subst (λ y. contains (pre ++ (w ++ post)) y ≡ true) (sym ((str_eq_iff x w).0 e))
          (contains-prefix pre (w ++ post) w (contains-here w post)) in
      ground (arith, here)
  | inr e ↦ ground (arith, mentions-within words pre w post (ground (arith, h, e)))
]
