-- ===== src/Proxy/Activity/Calls.antt =====
-- What the calls of the tracker do to the sets of open connections, and that they keep it well formed.
use hobbyist.Base.{
  ℕ, ◌+◌, ◌≤◌, ◌≡◌, refl, Bool, true, false, not, ◌||◌, String, str_eq, str_eq_iff, List, [], ◌∷◌,
  ◌++◌, Option, none, some, ◌==◌, if◌then◌else◌, keep, All, arith, Bool-cases, inl, inr,
}
use hobbyist.Base.Maps.{get, put, remove, get-put, get-remove}
use hobbyist.Proxy.Activity.{
  ConnectionHandle, Tracker, empty, has, live_of, open_connection, close, touch, reset,
}

-- No number handed out yet is above `next_id`, and none stands twice in one set.
abbrev pub IsBelow : ℕ → List ℕ → Type 0
IsBelow n = All (λ x. x ≤ n)

abbrev pub IsDistinct : List ℕ → Type 0
IsDistinct [] = Unit
IsDistinct (x ∷ s) = (has s x ≡ false) × IsDistinct s

pub record IsTracker (t : Tracker) : Type 0 where
  pub below : (id : String) → IsBelow t.next_id (live_of t id)
  pub sets : (id : String) → IsDistinct (live_of t id)

-- The calls, as events.
pub data Call : Type 0 where
  opens : String → Call
  closes : ConnectionHandle → ℕ → Call
  touches : String → ℕ → Call
  resets : String → Call

unfoldable pub call : Tracker → Call → Tracker
call t (opens id) = (open_connection t id).1
call t (closes h now) = close t h now
call t (touches id now) = touch t id now
call t (resets id) = reset t id

unfoldable pub run : Tracker → List Call → Tracker
run t [] = t
run t (c ∷ cs) = run (call t c) cs

live_of-put :
    (t : Tracker) (k j : String) (s : List ℕ) (c : List (String × ℕ)) (n : ℕ)
    → live_of (record { live = put k s t.live; idle_since = c; next_id = n }) j
      ≡ (if str_eq k j then s else live_of t j)
live_of-put t k j s c n = rw (get-put k j s t.live) (ground (arith, Bool-cases (str_eq k j)))

has-fresh : (s : List ℕ) (n : ℕ) → IsBelow n s → has s (n + 1) ≡ false
has-fresh [] n h = refl
has-fresh (x ∷ s) n (p, h) = ground (arith, has-fresh s n h)

pub live_of-open :
    (t : Tracker) (id j : String)
    → IsTracker t
    → live_of (open_connection t id).1 j
      ≡ (if str_eq id j then live_of t id ++ (t.next_id + 1) ∷ [] else live_of t j)
unfolding open_connection
live_of-open t id j v =
    rw (has-fresh (live_of t id) t.next_id (v.below id))
      (live_of-put t id j _ (remove id t.idle_since) (t.next_id + 1))

keep_absent : (s : List ℕ) (n : ℕ) → has s n ≡ false → keep (λ x. not (x == n)) s ≡ s
keep_absent [] n h = refl
keep_absent (x ∷ s) n h = ground (arith, keep_absent s n)

pub live_of-close :
    (t : Tracker) (h : ConnectionHandle) (now : ℕ) (j : String)
    → live_of (close t h now) j
      ≡ (if str_eq h.resource_id j then keep (λ x. not (x == h.id)) (live_of t j) else live_of t j)
unfolding close
live_of-close t h now j = go (get h.resource_id t.live) refl
  where
    go :
        (o : Option (List ℕ))
        → get h.resource_id t.live ≡ o
        → live_of (close t h now) j ≡ (
            if str_eq h.resource_id j
            then keep (λ x. not (x == h.id)) (live_of t j)
            else live_of t j)
    go none e = ground (arith, str_eq_iff h.resource_id j)
    go (some s) e = elim (Bool-cases (has s h.id)) [
      | inl held ↦ ground (
        arith,
        str_eq_iff h.resource_id j,
        get-put h.resource_id j (keep (λ x. not (x == h.id)) s) t.live,
      )
      | inr gone ↦ ground (arith, str_eq_iff h.resource_id j, keep_absent s h.id gone)
    ]

pub live_of-touch :
    (t : Tracker) (id j : String) (now : ℕ) → live_of (touch t id now) j ≡ live_of t j
unfolding touch
live_of-touch t id j now = ground (arith, str_eq_iff id j, get-put id j (live_of t id) t.live)

pub live_of-reset :
    (t : Tracker) (id j : String)
    → live_of (reset t id) j ≡ (if str_eq id j then [] else live_of t j)
unfolding reset
live_of-reset t id j = ground (arith, get-remove id j t.live)

keep-IsBelow : (p : ℕ → Bool) (n : ℕ) (s : List ℕ) → IsBelow n s → IsBelow n (keep p s)
keep-IsBelow p n [] h = tt
keep-IsBelow p n (x ∷ s) (q, h) = ground (arith, keep-IsBelow p n s h)

pub has-keep : (p : ℕ → Bool) (s : List ℕ) (n : ℕ) → has s n ≡ false → has (keep p s) n ≡ false
has-keep p [] n h = refl
has-keep p (x ∷ s) n h = ground (arith, has-keep p s n)

keep-IsDistinct : (p : ℕ → Bool) (s : List ℕ) → IsDistinct s → IsDistinct (keep p s)
keep-IsDistinct p [] h = tt
keep-IsDistinct p (x ∷ s) (q, h) = ground (arith, keep-IsDistinct p s h, has-keep p s x q)

weaken-IsBelow : (n : ℕ) (s : List ℕ) → IsBelow n s → IsBelow (n + 1) s
weaken-IsBelow n [] h = tt
weaken-IsBelow n (x ∷ s) (q, h) = (omega arith, weaken-IsBelow n s h)

concat-IsBelow : (n : ℕ) (s : List ℕ) → IsBelow n s → IsBelow (n + 1) (s ++ (n + 1) ∷ [])
concat-IsBelow n [] h = (omega arith, tt)
concat-IsBelow n (x ∷ s) (q, h) = (omega arith, concat-IsBelow n s h)

pub has-concat : (s : List ℕ) (n m : ℕ) → has (s ++ n ∷ []) m ≡ (has s m || (n == m))
has-concat [] n m = ground arith
has-concat (x ∷ s) n m = ground (arith, has-concat s n m)

concat-IsDistinct : (s : List ℕ) (n : ℕ) → has s n ≡ false → IsDistinct s → IsDistinct (s ++ n ∷ [])
concat-IsDistinct [] n h d = (refl, tt)
concat-IsDistinct (x ∷ s) n h (q, d) = ground (arith, concat-IsDistinct s n, has-concat s n x)

pub next_id-close :
    (t : Tracker) (h : ConnectionHandle) (now : ℕ) → (close t h now).next_id ≡ t.next_id
unfolding close
next_id-close t h now = ground arith

pub next_id-open : (t : Tracker) (id : String) → (open_connection t id).1.next_id ≡ t.next_id + 1
unfolding open_connection
next_id-open t id = refl

pub next_id-touch : (t : Tracker) (id : String) (now : ℕ) → (touch t id now).next_id ≡ t.next_id
unfolding touch
next_id-touch t id now = refl

pub next_id-reset : (t : Tracker) (id : String) → (reset t id).next_id ≡ t.next_id
unfolding reset
next_id-reset t id = refl

pub either : (P : List ℕ → Type 0) (b : Bool) {x y : List ℕ} → P x → P y → P (if b then x else y)
either P true p q = p
either P false p q = q

pub empty-IsTracker : IsTracker empty
unfolding get
empty-IsTracker = record { below = λ id. tt; sets = λ id. tt }

pub call-IsTracker : (t : Tracker) (c : Call) → IsTracker t → IsTracker (call t c)
unfolding call
call-IsTracker t (opens id) v = record {
  below = λ j.
      rw (next_id-open t id, live_of-open t id j v)
        (either (IsBelow (t.next_id + 1)) (str_eq id j)
          (concat-IsBelow t.next_id (live_of t id) (v.below id))
          (weaken-IsBelow t.next_id (live_of t j) (v.below j)));
  sets = λ j. rw (live_of-open t id j v) (
      either IsDistinct (str_eq id j)
        (concat-IsDistinct (live_of t id) (t.next_id + 1)
          (has-fresh (live_of t id) t.next_id (v.below id)) (v.sets id))
        (v.sets j));
}
call-IsTracker t (closes h now) v = record {
  below = λ j.
      rw (next_id-close t h now, live_of-close t h now j)
        (either (IsBelow t.next_id) (str_eq h.resource_id j)
          (keep-IsBelow (λ x. not (x == h.id)) t.next_id (live_of t j) (v.below j)) (v.below j));
  sets = λ j. rw (live_of-close t h now j) (
      either IsDistinct (str_eq h.resource_id j)
        (keep-IsDistinct (λ x. not (x == h.id)) (live_of t j) (v.sets j)) (v.sets j));
}
call-IsTracker t (touches id now) v = record {
  below = λ j. rw (next_id-touch t id now, live_of-touch t id j now) (v.below j);
  sets = λ j. rw (live_of-touch t id j now) (v.sets j);
}
call-IsTracker t (resets id) v = record {
  below = λ j.
      rw (next_id-reset t id, live_of-reset t id j)
        (either (IsBelow t.next_id) (str_eq id j) tt (v.below j));
  sets = λ j. rw (live_of-reset t id j) (either IsDistinct (str_eq id j) tt (v.sets j));
}
