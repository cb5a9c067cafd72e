-- ===== src/Proxy/Cancel/Lookup.antt =====
-- A key reaches the one connection it was minted for, while that connection lasts.
use hobbyist.Base.{
  ℕ, zero, suc, ◌+◌, ◌≡◌, refl, true, false, [], ◌∷◌, Option, none, some, arith, if◌then◌else◌,
  Bool-cases, Option-cases, inl, inr,
}
use hobbyist.Proxy.Cancel.{
  CancelKey, CancelRoute, ResolvedCancelRoute, same_key, Registry, Routes, find, has_key, add_loop,
  add, lookup, remove, mint_attempts,
}

same_key_self : (k : CancelKey) → same_key k k ≡ true
same_key_self k = ground arith

find_absent : (r : Registry) (k : CancelKey) → has_key r k ≡ false → find r k ≡ none
unfolding find
find_absent [] k h = refl
find_absent ((j, a) ∷ rest) k h = ground (arith, find_absent rest k)

-- Each key stands once, as in a map.
abbrev HasDistinctKeys : Registry → Type 0
HasDistinctKeys [] = Unit
HasDistinctKeys ((k, a) ∷ r) = (has_key r k ≡ false) × HasDistinctKeys r

remove_absent : (r : Registry) (k : CancelKey) → has_key r k ≡ false → remove r k ≡ r
unfolding remove
remove_absent [] k h = refl
remove_absent ((j, a) ∷ rest) k h = ground (arith, remove_absent rest k)

find-remove :
    (r : Registry) (k j : CancelKey)
    → find (remove r k) j ≡ (if same_key k j then none else find r j)
unfolding find remove
find-remove [] k j = ground arith
find-remove ((i, a) ∷ rest) k j = ground (arith, find-remove rest k j)

-- Of `add`'s two answers: a key that no connection had, with the registry extended by it, or none,
-- with the registry as it was.
pub data Added (r : Registry) (route : ℕ) : Option CancelKey × Registry → Type 0 where
  minted : (key : CancelKey) → has_key r key ≡ false → Added r route (some key, (key, route) ∷ r)
  refused : Added r route (none, r)

add_loop-Added :
    (mint : ℕ → CancelKey) (n attempts : ℕ) (r : Registry) (route : ℕ)
    → Added r route (add_loop mint n attempts r route)
unfolding add_loop
add_loop-Added mint n zero r route = refused
add_loop-Added mint n (suc attempts) r route = elim (Bool-cases (has_key r (mint n))) [
  | inl taken ↦ rw taken (add_loop-Added mint (n + 1) attempts r route)
  | inr free ↦ rw free (minted (mint n) free)
]

unfoldable pub resolved : CancelRoute → Option ResolvedCancelRoute
resolved route = elim route.backend_key [
  | none ↦ none
  | some backend_key ↦
      some (record { host = route.host; port = route.port; backend_key = backend_key })
]

unfoldable resolved_routes : Routes → Option ℕ → Option ResolvedCancelRoute
resolved_routes routes none = none
resolved_routes routes (some a) = resolved (routes a)

lookup_lem :
    (routes : Routes) (r : Registry) (k : CancelKey)
    → lookup routes r k ≡ resolved_routes routes (find r k)
unfolding lookup resolved_routes resolved
lookup_lem routes r k = elim (Option-cases (find r k)) [
  | inl e ↦ ground (arith, e)
  | inr (a, e) ↦ ground (arith, e)
]

unfoldable pub IsRouted : Routes → Registry → ℕ → CancelKey → Option CancelKey × Registry → Type 0
IsRouted routes r route j (none, r1) = r1 ≡ r
IsRouted routes r route j (some key, r1) =
    (lookup routes r1 j ≡ (if same_key key j then resolved (routes route) else lookup routes r j))
    × (remove r1 key ≡ r)

Added-IsRouted :
    (routes : Routes) (r : Registry) (route : ℕ) (j : CancelKey)
    (result : Option CancelKey × Registry)
    → Added r route result
    → IsRouted routes r route j result
unfolding IsRouted find remove resolved_routes
Added-IsRouted routes r route j (_) refused = refl
Added-IsRouted routes r route j (_) (minted key free) = (
  rw (lookup_lem routes ((key, route) ∷ r) j, lookup_lem routes r j)
      (elim (Bool-cases (same_key key j)) [ inl e ↦ rw e refl | inr e ↦ rw e refl ]),
  rw (same_key_self key) (remove_absent r key free),
)

-- A connection that is given a key is reached by that key, and by no other: what the key looks up
-- is the route as its connection has it at that moment, none until the backend's key is known,
-- every other key looks up what it did before, and removing the key leaves the registry that
-- stood before. A connection that is given none leaves the registry as it is.
pub add-IsRouted :
    (mint : ℕ → CancelKey) (n : ℕ) (routes : Routes) (r : Registry) (route : ℕ) (j : CancelKey)
    → IsRouted routes r route j (add mint n r route)
unfolding add
add-IsRouted mint n routes r route j =
    Added-IsRouted routes r route j _ (add_loop-Added mint n mint_attempts r route)

-- A key that was removed is looked up no more, and every other key as before.
pub lookup-remove :
    (routes : Routes) (r : Registry) (k j : CancelKey)
    → lookup routes (remove r k) j ≡ (if same_key k j then none else lookup routes r j)
unfolding resolved_routes
lookup-remove routes r k j =
    rw (lookup_lem routes (remove r k) j, lookup_lem routes r j, find-remove r k j)
      (elim (Bool-cases (same_key k j)) [ inl e ↦ rw e refl | inr e ↦ rw e refl ])
