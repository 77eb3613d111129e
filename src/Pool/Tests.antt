-- ===== src/Pool/Tests.antt =====
-- Runs of a pool of two daemons, and the properties at them.
use go_bb_browser.Prelude.{
  ℕ, zero, suc, ◌+◌, ◌-◌, ◌%◌, ◌≤◌, ◌<◌, ◌≡◌, refl, ap, subst, ◌⊎◌, inr, Bool, true, false, none,
  some, List, [], ◌∷◌, ◌++◌, arith, Text, codes, str_eq, trim_space, ltb, if◌then◌else◌,
}
use go_bb_browser.Prelude.Json.{Json, str, num, obj, end, field}
use go_bb_browser.Protocol.{method_tab_new, method_tab_close}
use go_bb_browser.Prelude.{str_lt, space_front, space_back}
use go_bb_browser.Pool.TabId.{format_tab_id, split_tab_id, IsKey, IsShort, split-format}
use go_bb_browser.Pool.State.{
  Client, PoolBackend, Pool, new_pool_backends, unknown_tab, tab_required,
}
use go_bb_browser.Pool.Tabs.{lookup_tab, resolve_tab}
use go_bb_browser.Pool.Walk.{order, load}
use go_bb_browser.Pool.Codec.{Params, marshals, absent, Dest, pointer, no_dest}
use go_bb_browser.Pool.Client.{Reply, refused, answered, done, failed}
use go_bb_browser.Pool.Calls.{call}
use go_bb_browser.Pool.TabCalls.{call_bound, call_close}
use go_bb_browser.Pool.Inv.{IsPool, Keeps}
use go_bb_browser.Pool.Order.{range, count, order_lem, order-permutation}
use go_bb_browser.Pool.Build.{new_pool_backends-IsPool}
use go_bb_browser.Pool.Affinity.{
  resolve-lookup, call-Keeps, call_bound-owner, call_bound-call_close,
}

abbrev client : Client
client = record { base_url = codes "http://h" }

abbrev two_backends : List PoolBackend
two_backends =
    record { key = []; client = some client }
    ∷ record { key = codes " b "; client = some client }
    ∷ []

abbrev two : Pool
two = record {
  clients = client ∷ client ∷ [];
  keys = codes "0" ∷ codes "b" ∷ [];
  by_key = (codes "0", 0) ∷ (codes "b", 1) ∷ [];
  in_flight = 0 ∷ 0 ∷ [];
  rr = 0;
  tabs = [];
}

two_built : new_pool_backends two_backends ≡ inr two
unfolding new_pool_backends
two_built = refl

-- Daemon 0 is down; daemon 1 answers with the tab `ab12`. The world lists the requests.
abbrev Log : Type 0
Log = List (ℕ × Text)

abbrev answer : Json
answer = obj (field (codes "tab") (str (codes "ab12")) (field (codes "seq") (num (codes "7")) end))

abbrev post : ℕ → Text → Json → Log → Reply × Log
post zero method j w = (refused (codes "down"), w ++ (0, method) ∷ [])
post (suc i) method j w = (answered (some answer), w ++ (suc i, method) ∷ [])

abbrev never : Log → Bool
never w = false

abbrev any_object : Dest
any_object = pointer (λ j. true)

abbrev opened : Pool
opened = record {
  clients = client ∷ client ∷ [];
  keys = codes "0" ∷ codes "b" ∷ [];
  by_key = (codes "0", 0) ∷ (codes "b", 1) ∷ [];
  in_flight = 0 ∷ 0 ∷ [];
  rr = 1;
  tabs = (codes "b:ab12", 1) ∷ [];
}

-- tab_new is tried on the daemon that is down, then on the other, and the tab gets the pool's id.
tab_new_run : call post never method_tab_new absent any_object two [] ≡ (
  done (
      some (
        obj (
          field (codes "seq") (num (codes "7")) (field (codes "tab") (str (codes "b:ab12")) end)))),
  opened,
  (0, method_tab_new) ∷ (1, method_tab_new) ∷ [],
)
unfolding call trim_space str_lt
tab_new_run = refl

abbrev on_tab : Params
on_tab = marshals (obj (field (codes "tab") (str (codes "b:ab12")) end))

-- goto goes to the owner only.
goto_run : (call post never (codes "goto") on_tab no_dest opened []).2 ≡ (1, codes "goto") ∷ []
unfolding call trim_space str_lt
goto_run = refl

goto_without_tab : (call post never (codes "goto") absent no_dest opened []).0 ≡ failed tab_required
unfolding call trim_space str_lt
goto_without_tab = refl

order_lem_example :
    (best : ℕ) × (d : ℕ) × ((order two).0 ≡ some (range best (2 - best) ++ range 0 best))
    × (best < 2)
    × (best ≡ (0 % 2 + d) % 2)
    × ((j : ℕ) → j < 2 → load two.in_flight best ≤ load two.in_flight j)
    × ((e : ℕ) → e < d → load two.in_flight best < load two.in_flight ((0 % 2 + e) % 2))
order_lem_example = order_lem two (omega arith) (omega arith)

order-permutation_example :
    (out : List ℕ) × ((order two).0 ≡ some out)
    × ((j : ℕ) → count j out ≡ (if ltb j 2 then 1 else 0))
order-permutation_example = order-permutation two (omega arith) (omega arith)

b-IsKey : IsKey (codes "b")
unfolding trim_space space_front
b-IsKey = record { nonempty = λ e. absurd cc; no_colon = refl; trimmed = refl }

ab12-IsShort : IsShort (codes "ab:12")
unfolding space_back
ab12-IsShort = record { nonempty = λ e. absurd cc; trimmed = refl }

split-format_example :
    split_tab_id (format_tab_id (codes "b") (codes "ab:12")) ≡ some (codes "b", codes "ab:12")
split-format_example = split-format (codes "b") (codes "ab:12") b-IsKey ab12-IsShort

new_pool_backends-IsPool_example : IsPool two × (two.tabs ≡ [])
new_pool_backends-IsPool_example = new_pool_backends-IsPool two_backends two two_built

two-IsPool : IsPool two
two-IsPool = (new_pool_backends-IsPool two_backends two two_built).0

call-Keeps_example : Keeps two (call post never method_tab_new absent any_object two []).1
call-Keeps_example = call-Keeps post never method_tab_new absent any_object two [] two-IsPool

opened-IsPool : IsPool opened
opened-IsPool =
    subst IsPool (ap (λ r. r.1) tab_new_run)
      (call-Keeps post never method_tab_new absent any_object two [] two-IsPool).is_pool

found : lookup_tab (codes "b:ab12") opened ≡ some 1
unfolding lookup_tab str_eq trim_space
found = refl

resolve-lookup_example : (short : Text) × (resolve_tab (codes "b:ab12") opened ≡ inr (1, short))
resolve-lookup_example = resolve-lookup (codes "b:ab12") 1 opened opened-IsPool found

call_bound-owner_example :
    let w' = (call_bound post never (codes "b:ab12") (codes "goto") on_tab no_dest opened []).2 in
    (w' ≡ []) ⊎ ((j : Json) × (w' ≡ (post 1 (codes "goto") j []).1))
call_bound-owner_example =
    call_bound-owner post never (codes "b:ab12") (codes "goto") on_tab no_dest 1 opened []
      opened-IsPool found

closes :
    (call_close post never (codes "b:ab12") method_tab_close on_tab no_dest opened []).0 ≡ done none
unfolding call_close trim_space
closes = refl

call_bound-call_close_example :
    let (r, p', w') =
      call_close post never (codes "b:ab12") method_tab_close on_tab no_dest opened [] in
    call_bound post never (codes "b:ab12") (codes "goto") on_tab no_dest p' w'
    ≡ (failed (unknown_tab (trim_space (codes "b:ab12"))), p', w')
call_bound-call_close_example =
    call_bound-call_close post never (codes "b:ab12") method_tab_close (codes "goto") on_tab on_tab
      no_dest no_dest opened [] none opened-IsPool closes
