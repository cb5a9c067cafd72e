-- ===== src/Queue/Retain/Retention.antt =====
-- What retention drops, and what a dead letter keeps.
use hobbyist.Base.{
  ℕ, suc, ◌+◌, ◌*◌, ◌<◌, ◌≡◌, refl, ap, ◌∙◌, Bool, true, false, not, Text, text_eq, text_eq_iff,
  text_eq_self, [], ◌∷◌, ◌++◌, Option, none, some, keep, length, arith, Bool-cases, inl, inr, ◌⊎◌,
}
use hobbyist.Queue.Message.{Row, LeasedMessage, ready, leased, delayed}
use hobbyist.Queue.Table.{Table, has_id, find_row, insert_or_ignore}
use hobbyist.Queue.Lease.{is_ready, is_outstanding}
use hobbyist.Queue.Settle.{is_expired}
use hobbyist.Queue.WellFormed.{IsRow}
use hobbyist.Queue.Retain.{is_doomed, sweep_retention, peeked_state, dead_row, insert_dead_letter}

keep-split :
    (p : Row → Bool) (t : Table) → length (keep p t) + length (keep (λ r. not (p r)) t) ≡ length t
keep-split p [] = refl
keep-split p (r ∷ t) = elim (Bool-cases (p r)) [
  | inl hit ↦ rw hit (omega (arith, keep-split p t))
  | inr miss ↦ rw miss (omega (arith, keep-split p t))
]

keep_all : (p : Row → Bool) (t : Table) → length (keep p t) ≡ 0 → keep (λ r. not (p r)) t ≡ t
keep_all p [] h = refl
keep_all p (r ∷ t) h = elim (Bool-cases (p r)) [
  | inl hit ↦ absurd (let full : suc (length (keep p t)) ≡ 0 = (rw hit at h) in omega arith)
  | inr miss ↦ rw miss (ap (◌∷◌ r) (keep_all p t (rw miss at h)))
]

-- A sweep keeps exactly the rows whose retention has not run out, in their order, and says how many
-- it dropped.
pub sweep_retention-keep :
    (t : Table) (seconds now : ℕ)
    → ((sweep_retention t seconds now).1 ≡ keep (λ r. not (is_doomed seconds now r)) t)
      × ((sweep_retention t seconds now).0 + length (sweep_retention t seconds now).1 ≡ length t)
unfolding sweep_retention
sweep_retention-keep t seconds now =
    ground (arith, keep-split (is_doomed seconds now) t, keep_all (is_doomed seconds now) t)

has_id-concat_self : (t : Table) (r : Row) → has_id r.id (t ++ r ∷ []) ≡ true
has_id-concat_self [] r = rw (text_eq_self r.id)
has_id-concat_self (s ∷ t) r = ground (arith, has_id-concat_self t r)

-- Writing a dead letter again changes nothing: not the row, nor the time from which its retention
-- counts.
pub insert_dead_letter_twice :
    (t : Table) (m : LeasedMessage) (now later : ℕ)
    → insert_dead_letter (insert_dead_letter t m now) m later ≡ insert_dead_letter t m now
unfolding insert_dead_letter insert_or_ignore
insert_dead_letter_twice t m now later = elim (Bool-cases (has_id m.id t)) [
  | inl used ↦ rw (used, used)
  | inr free ↦ rw (free, has_id-concat_self t (dead_row m now))
]

find_row-concat :
    (id : Text) (t : Table) (r : Row)
    → has_id id t ≡ false
    → r.id ≡ id
    → find_row id (t ++ r ∷ []) ≡ some r
unfolding find_row
find_row-concat id [] r h e = ground (arith, text_eq_iff r.id id)
find_row-concat id (s ∷ t) r h e = ground (arith, find_row-concat id t r)

find_row-keep_of :
    (p : Row → Bool) (id : Text) (t : Table) (r : Row)
    → find_row id t ≡ some r
    → p r ≡ true
    → find_row id (keep p t) ≡ some r
unfolding find_row
find_row-keep_of p id [] r e h = cc
find_row-keep_of p id (s ∷ t) r e h = elim (Bool-cases (text_eq s.id id)) [
  | inl hit ↦ let same : s ≡ r = ground arith in rw (ap p same ∙ h) (rw hit (ap some same))
  | inr miss ↦ skipped miss (Bool-cases (p s)) (find_row-keep_of p id t r (rw miss at e) h)
]
  where
    skipped :
        text_eq s.id id ≡ false
        → (p s ≡ true) ⊎ (p s ≡ false)
        → find_row id (keep p t) ≡ some r
        → find_row id (keep p (s ∷ t)) ≡ some r
    skipped miss (inl yes_p) rest = rw yes_p (rw miss rest)
    skipped miss (inr no_p) rest = rw no_p rest

-- A dead letter whose id the table does not have keeps its id, body and enqueue time and the
-- count of its failures, and no sweep before its retention has passed since it landed drops it,
-- however old the message is.
pub insert_dead_letter-kept :
    (t : Table) (m : LeasedMessage) (now seconds at : ℕ)
    → has_id m.id t ≡ false
    → at < now + seconds * 1000
    → find_row m.id (sweep_retention (insert_dead_letter t m now) seconds at).1
      ≡ some (dead_row m now)
unfolding insert_dead_letter insert_or_ignore
insert_dead_letter-kept t m now seconds at free h =
    rw ((sweep_retention-keep (insert_dead_letter t m now) seconds at).0, free)
      (find_row-keep_of (λ r. not (is_doomed seconds at r)) m.id (t ++ dead_row m now ∷ [])
        (dead_row m now) (find_row-concat m.id t (dead_row m now) free refl) (ground arith))

-- What a peek says of a well-formed row: `leased` exactly on an unexpired lease; `delayed` is not
-- leased and not visible yet; `ready` is what the next lease may take, or what expires now.
pub peeked_state_cases :
    (now : ℕ) (r : Row)
    → IsRow r
    → ((peeked_state now r ≡ leased) × (is_outstanding now r ≡ true))
      ⊎ ((peeked_state now r ≡ delayed) × (is_outstanding now r ≡ false) × (now < r.visible_at))
      ⊎ ((peeked_state now r ≡ ready) × ((is_ready now r ≡ true) ⊎ (is_expired now r ≡ true)))
unfolding peeked_state
peeked_state_cases now r h = go r.lease_id r.lease_expires_at refl refl
  where
    go :
        (l : Option Text) (e : Option ℕ)
        → r.lease_id ≡ l
        → r.lease_expires_at ≡ e
        → ((peeked_state now r ≡ leased) × (is_outstanding now r ≡ true))
          ⊎ ((peeked_state now r ≡ delayed) × (is_outstanding now r ≡ false) × (now < r.visible_at))
          ⊎ ((peeked_state now r ≡ ready) × ((is_ready now r ≡ true) ⊎ (is_expired now r ≡ true)))
    go none none p q = ground arith
    go none (some x) p q = ground arith
    go (some l) none p q = ground arith
    go (some l) (some x) p q = ground arith
