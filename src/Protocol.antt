-- ===== src/Protocol.antt =====
-- pkg/protocol/jsonrpc.go: the JSON-RPC methods, with their parameters and messages below.
pub mod Params
pub mod Message
use go_bb_browser.Prelude.{Bool, List, [], ◌∷◌, Text, codes, str_eq, any}

abbrev pub method_tab_list : Text
method_tab_list = codes "tab_list"

abbrev pub method_tab_focus : Text
method_tab_focus = codes "tab_focus"

abbrev pub method_tab_select : Text
method_tab_select = codes "tab_select"

abbrev pub method_tab_new : Text
method_tab_new = codes "tab_new"

abbrev pub method_tab_close : Text
method_tab_close = codes "tab_close"

abbrev pub dispatched_methods : List Text
dispatched_methods =
    method_tab_list
    ∷ method_tab_focus
    ∷ method_tab_select
    ∷ method_tab_new
    ∷ codes "goto"
    ∷ codes "reload"
    ∷ method_tab_close
    ∷ codes "screenshot"
    ∷ codes "eval"
    ∷ codes "click"
    ∷ codes "fill"
    ∷ codes "network"
    ∷ codes "network_clear"
    ∷ codes "network_route"
    ∷ codes "network_unroute"
    ∷ codes "fetch"
    ∷ codes "snapshot"
    ∷ codes "console"
    ∷ codes "console_clear"
    ∷ codes "errors"
    ∷ codes "errors_clear"
    ∷ []

unfoldable pub is_dispatched_method : Text → Bool
is_dispatched_method method = any (λ m. str_eq m method) dispatched_methods

unfoldable pub is_tab_related_method : Text → Bool
unfolding is_dispatched_method
is_tab_related_method method = is_dispatched_method method
