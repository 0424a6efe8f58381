-- ===== src/Json/Order.antt =====
-- A Go map is read the same way in whatever order its entries stand.
use go_mcp_oauth_sdk.Prelude.{String, ◌≡◌, refl, ◌∙◌, arith, eq_iff}
use go_mcp_oauth_sdk.Prelude.Perm.{Reorder, Distinct-Reorder}
use go_mcp_oauth_sdk.Json.{Object, keys, IsMap, get}

pub keys-Reorder : {o o' : Object} → Reorder o o' → Reorder (keys o) (keys o')
keys-Reorder Reorder.empty = Reorder.empty
keys-Reorder (Reorder.keep (k, v) h) = Reorder.keep k (keys-Reorder h)
keys-Reorder (Reorder.swap (j, v) (k, w) o) = Reorder.swap j k (keys o)
keys-Reorder (Reorder.trans h k) = Reorder.trans (keys-Reorder h) (keys-Reorder k)

pub get-Reorder : {o o' : Object} (key : String) → Reorder o o' → IsMap o → get o key ≡ get o' key
unfolding get
get-Reorder key Reorder.empty d = refl
get-Reorder key (Reorder.keep (k, v) h) d = rw (get-Reorder key h d.1)
get-Reorder key (Reorder.swap (j, v) (k, w) o) (new, d) = ground (arith, eq_iff j key, eq_iff k key)
get-Reorder key (Reorder.trans h h') d =
    get-Reorder key h d ∙ get-Reorder key h' (Distinct-Reorder (keys-Reorder h) d)
