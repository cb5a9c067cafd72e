-- ===== src/Queue/Settle/NoLoss.antt =====
-- No message leaves the table of a queue unless it is acknowledged or a dead letter is written.
use hobbyist.Base.{
  ℕ, ◌≡◌, refl, ap, subst, ◌∙◌, Bool, true, Text, text_eq, text_eq_iff, List, [], ◌∷◌, ◌++◌, some,
  keep, All, arith, Bool-cases, inl, inr, ◌⊎◌, ◌||◌,
}
use hobbyist.Queue.Message.{Row, ConsumerOptions, LeasedMessage, DeliveryResult, mentions}
use hobbyist.Queue.Table.{Table, has_id, find_row, HasDistinctIds}
use hobbyist.Queue.Table.Edits.{Edit, pass}
use hobbyist.Queue.Table.Select.{edit_if, find_row-keep, find_row-order_by_id, keep-HasDistinctIds}
use hobbyist.Queue.Settle.{
  Reply, done, threw, requeued_at, notify, is_under, is_expired, apply_result, expire_leases,
  Applied,
}
use hobbyist.Queue.Settle.OnePass.{
  Fate, acks, dies, requeues, is_acked, retry_fate, apply_fate, dead_of, notify_all,
}
use hobbyist.Queue.Settle.Committed.{Commits, apply_result-Commits, expire_leases-Commits}

-- What the dead letter callback writes stays: `Holds w id` says that `w` has the message.
pub record DeadLetters {World : Type 0} (f : World → LeasedMessage → Reply World) : Type 1 where
  pub Holds : World → Text → Type 0
  pub stores : (w w' : World) (m : LeasedMessage) → f w m ≡ done w' → Holds w' m.id
  pub keeps :
      (w w' : World) (m : LeasedMessage) (id : Text) → f w m ≡ done w' → Holds w id → Holds w' id

pub find_row-id : (id : Text) (t : Table) (r : Row) → find_row id t ≡ some r → r.id ≡ id
unfolding find_row
find_row-id id [] r e = cc
find_row-id id (s ∷ t) r e = ground (arith, find_row-id id t r, text_eq_iff s.id id)

has_id_of_find_row : (id : Text) (t : Table) (r : Row) → find_row id t ≡ some r → has_id id t ≡ true
unfolding find_row
has_id_of_find_row id [] r e = cc
has_id_of_find_row id (s ∷ t) r e = ground (arith, has_id_of_find_row id t r)

All-find_row :
    (P : Row → Type 0) (id : Text) (t : Table) (r : Row) → find_row id t ≡ some r → All P t → P r
unfolding find_row
All-find_row P id [] r e h = absurd (ground arith)
All-find_row P id (s ∷ t) r e (p, h) = elim (Bool-cases (text_eq s.id id)) [
  | inl hit ↦ let same : s ≡ r = ground arith in rw (← same) p
  | inr miss ↦ All-find_row P id t r (ground arith) h
]

-- A row that the pass keeps under its id is in the table after it.
has_id-pass :
    (f : Edit) (id : Text) (t : Table) (r r' : Row)
    → find_row id t ≡ some r
    → f r ≡ some r'
    → r'.id ≡ id
    → has_id id (pass f t) ≡ true
unfolding find_row pass
has_id-pass f id [] r r' e k i = cc
has_id-pass f id (s ∷ t) r r' e k i = elim (Bool-cases (text_eq s.id id)) [
  | inl hit ↦ let same : s ≡ r = ground arith in ground (arith, ap f same, text_eq_iff r'.id id)
  | inr miss ↦ let later = has_id-pass f id t r r' (ground arith) k i in ground arith
]

mentions-append :
    (id : Text) (ms ns : List LeasedMessage)
    → mentions id (ms ++ ns) ≡ (mentions id ms || mentions id ns)
mentions-append id [] ns = refl
mentions-append id (m ∷ ms) ns = ground (arith, mentions-append id ms ns)

mentions-dead_of :
    (fate : Row → Fate) (id : Text) (rows : Table) (r : Row)
    → find_row id rows ≡ some r
    → fate r ≡ dies
    → mentions id (dead_of fate rows) ≡ true
unfolding find_row
mentions-dead_of fate id [] r e h = cc
mentions-dead_of fate id (s ∷ rows) r e h =
    ground (arith, mentions-dead_of fate id rows r, mentions-append id)

selected_row :
    (p : Row → Bool) (t : Table) (r : Row)
    → HasDistinctIds t
    → find_row r.id t ≡ some r
    → p r ≡ true
    → find_row r.id (keep p t) ≡ some r
selected_row p t r d e h = All-find_row _ r.id t r e (find_row-keep p t d) ∙ rw h

module _ {World : Type 0} {f : World → LeasedMessage → Reply World} (dl : DeadLetters f) where
  open dl use {Holds, stores, keeps}

  notify_all-keeps :
      (id : Text) (ms : List LeasedMessage) (w w' : World)
      → notify_all (some f) ms w ≡ done w'
      → Holds w id
      → Holds w' id
  unfolding notify_all notify
  notify_all-keeps id [] w w' e h = subst (λ x. Holds x id) (ground arith) h
  notify_all-keeps id (m ∷ ms) w w' e h = go (f w m) refl (λ v. notify_all-keeps id ms v w')
    where
      go :
          (x : Reply World)
          → f w m ≡ x
          → ((v : World) → notify_all (some f) ms v ≡ done w' → Holds v id → Holds w' id)
          → Holds w' id
      go (threw v) q ih = absurd (ground arith)
      go (done v) q ih = ih v (ground arith) (keeps w v m id q h)

  notify_all-Holds :
      (id : Text) (ms : List LeasedMessage) (w w' : World)
      → notify_all (some f) ms w ≡ done w'
      → mentions id ms ≡ true
      → Holds w' id
  unfolding notify_all notify
  notify_all-Holds id [] w w' e h = absurd (ground arith)
  notify_all-Holds id (m ∷ ms) w w' e h = go (f w m) refl (λ v. notify_all-Holds id ms v w')
    where
      go :
          (x : Reply World)
          → f w m ≡ x
          → ((v : World) → notify_all (some f) ms v ≡ done w' → mentions id ms ≡ true → Holds w' id)
          → Holds w' id
      go (threw v) q ih = absurd (ground arith)
      go (done v) q ih = elim (Bool-cases (text_eq m.id id)) [
        | inl this ↦
            notify_all-keeps id ms v w' (ground arith)
              (subst (Holds v) ((text_eq_iff _ _).0 this) (stores w v m q))
        | inr other ↦ ih v (ground arith) (ground arith)
      ]

  -- Where a row of the table is after a settlement.
  Commits-no_loss :
      (p : Row → Bool) (fate : Row → Fate) (rows t : Table) (w : World) (a : Applied World)
      (r : Row)
      → Commits (some f) p fate rows t w a
      → find_row r.id t ≡ some r
      → (p r ≡ true → find_row r.id rows ≡ some r)
      → (has_id r.id a.table ≡ true) ⊎ ((p r ≡ true) × (fate r ≡ acks) ⊎ Holds a.world r.id)
  Commits-no_loss p fate rows t w a r (inl (rolled, same)) e sel =
      inl (rw same (has_id_of_find_row r.id t r e))
  Commits-no_loss p fate rows t w a r (inr (c, committed, done_so)) e sel =
      elim (Bool-cases (p r)) [
        | inl hit ↦ met (fate r) refl hit
        | inr miss ↦ inl (rw done_so.table (has_id-pass _ r.id t r r e (rw (miss, edit_if)) refl))
      ]
    where
      met :
          (x : Fate)
          → fate r ≡ x
          → p r ≡ true
          → (has_id r.id a.table ≡ true) ⊎ ((p r ≡ true) × (fate r ≡ acks) ⊎ Holds a.world r.id)
      met acks q hit = inr (inl (hit, q))
      met dies q hit = inr (
          inr (
            notify_all-Holds r.id c.dead_lettered w a.world done_so.world
              (rw done_so.dead_lettered (mentions-dead_of fate r.id rows r (sel hit) q))))
      met (requeues at) q hit = inl (
          rw done_so.table
            (has_id-pass _ r.id t r (requeued_at at r) e (rw (hit, edit_if, q)) refl))

  apply_fate-acks :
      (result : DeliveryResult) (opts : ConsumerOptions) (now : ℕ) (r : Row)
      → apply_fate result opts now r ≡ acks
      → is_acked result r.id ≡ true
  apply_fate-acks result opts now r e = elim (Bool-cases (is_acked result r.id)) [
    | inl acked ↦ acked
    | inr retried ↦ absurd (ground arith)
  ]

  retry_fate-ne-acks : (opts : ConsumerOptions) (at : ℕ) (r : Row) → ¬ (retry_fate opts at r ≡ acks)
  retry_fate-ne-acks opts at r e = ground arith

  -- After `applyResult` on a table with distinct ids, with a callback that keeps what it was
  -- called with, a message of the table is still there, or was under this lease and acknowledged
  -- by the consumer, or is held by the dead letter queue, whether or not the call committed.
  pub apply_result-no_loss :
      (t : Table) (w : World) (lease : Text) (result : DeliveryResult) (opts : ConsumerOptions)
      (now : ℕ) (r : Row)
      → HasDistinctIds t
      → find_row r.id t ≡ some r
      → let a = apply_result (some f) t w lease result opts now in
        (has_id r.id a.table ≡ true)
        ⊎ ((is_under lease r ≡ true) × (is_acked result r.id ≡ true) ⊎ Holds a.world r.id)
  apply_result-no_loss t w lease result opts now r d e =
      elim (Commits-no_loss (is_under lease) (apply_fate result opts now) _ t w _ r
        (apply_result-Commits (some f) t w lease result opts now d) e
        (λ hit.
          find_row-order_by_id r.id _ (keep-HasDistinctIds (is_under lease) t d)
          ∙ selected_row (is_under lease) t r d e hit)) [
            | inl kept ↦ inl kept
            | inr (inl (hit, q)) ↦ inr (inl (hit, apply_fate-acks result opts now r q))
            | inr (inr held) ↦ inr (inr held)
          ]

  -- After `expireLeases` on a table with distinct ids, with a callback that keeps what it was
  -- called with, a message of the table is still there or is held by the dead letter queue.
  pub expire_leases-no_loss :
      (t : Table) (w : World) (opts : ConsumerOptions) (now : ℕ) (r : Row)
      → HasDistinctIds t
      → find_row r.id t ≡ some r
      → let a = expire_leases (some f) t w opts now in
        (has_id r.id a.table ≡ true) ⊎ Holds a.world r.id
  expire_leases-no_loss t w opts now r d e =
      elim (Commits-no_loss (is_expired now) (retry_fate opts now) _ t w _ r
        (expire_leases-Commits (some f) t w opts now d) e (selected_row (is_expired now) t r d e)) [
          | inl kept ↦ inl kept
          | inr (inl (hit, q)) ↦ absurd (retry_fate-ne-acks opts now r q)
          | inr (inr held) ↦ inr held
        ]
