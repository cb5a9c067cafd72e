-- ===== src/Proxy/Cancel.antt =====
-- packages/proxy/src/cancel.ts: from the key a client was given to the connection it stands for.
-- A route is shared with the connection that added it, which fills in `backend_key` later: the
-- registry maps a key to the route's address in a store of routes. The pair of numbers is the map's
-- key, of which the source's text is an injective spelling. `mint` is random in the source, and a
-- parameter here: the attempts draw from a stream of keys.
pub mod Lookup
use hobbyist.Base.{
  ℕ, zero, suc, ◌+◌, ◌==◌, ◌&&◌, not, Bool, true, false, String, List, [], ◌∷◌, Option, none, some,
  keep, any, length, if◌then◌else◌,
}

pub record CancelKey : Type 0 where
  pub process_id : ℕ
  pub secret_key : ℕ

pub record CancelRoute : Type 0 where
  pub host : String
  pub port : ℕ
  pub backend_key : Option CancelKey

pub record ResolvedCancelRoute : Type 0 where
  pub host : String
  pub port : ℕ
  pub backend_key : CancelKey

abbrev pub mint_attempts : ℕ
mint_attempts = 8

-- `keyOf(a) === keyOf(b)`.
abbrev pub same_key : CancelKey → CancelKey → Bool
same_key a b = (a.process_id == b.process_id) && (a.secret_key == b.secret_key)

-- The map: each key once, with the address of its route.
abbrev pub Registry : Type 0
Registry = List (CancelKey × ℕ)

-- The routes that the connections hold, by address.
abbrev pub Routes : Type 0
Routes = ℕ → CancelRoute

unfoldable pub find : Registry → CancelKey → Option ℕ
find [] key = none
find ((k, a) ∷ rest) key = if same_key k key then some a else find rest key

abbrev pub has_key : Registry → CancelKey → Bool
has_key r key = any (λ e. same_key e.0 key) r

-- The loop of `add`, on the attempts left; `mint n` is what the n-th call of `mint` returns.
unfoldable pub add_loop : (ℕ → CancelKey) → ℕ → ℕ → Registry → ℕ → Option CancelKey × Registry
add_loop mint n zero r route = (none, r)
add_loop mint n (suc attempts) r route =
    let key = mint n in
    let later = add_loop mint (n + 1) attempts r route in
    if not (has_key r key) then (some key, (key, route) ∷ r) else later

unfoldable pub add : (ℕ → CancelKey) → ℕ → Registry → ℕ → Option CancelKey × Registry
add mint n r route = add_loop mint n mint_attempts r route

unfoldable pub lookup : Routes → Registry → CancelKey → Option ResolvedCancelRoute
lookup routes r key = elim (find r key) [
  | none ↦ none
  | some a ↦ elim (routes a).backend_key [
    | none ↦ none
    | some backend_key ↦
        some (record { host = (routes a).host; port = (routes a).port; backend_key = backend_key })
  ]
]

unfoldable pub remove : Registry → CancelKey → Registry
remove r key = keep (λ e. not (same_key e.0 key)) r

unfoldable pub size : Registry → ℕ
size r = length r
