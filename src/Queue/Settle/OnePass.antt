-- ===== src/Queue/Settle/OnePass.antt =====
-- The loops of `applyResult` and `expireLeases`, statement by statement, against one pass over the
-- table that decides each row's fate.
use hobbyist.Base.{
  ℕ, ◌+◌, ◌*◌, ◌≡◌, refl, ap, ◌∙◌, Bool, true, false, not, Text, List, [], ◌∷◌, ◌++◌, Option, none,
  some, ltb, if◌then◌else◌, arith, append_assoc, append-nil, Bool-cases, Option-cases, inl, inr,
}
use hobbyist.Queue.Message.{
  Row, ConsumerOptions, LeasedMessage, DeliveryResult, ok_outcome, exception,
}
use hobbyist.Queue.Table.{Table, update_where}
use hobbyist.Queue.Table.Edits.{Edit, pass, only, edit_all, update_where-pass, delete_where-pass}
use hobbyist.Queue.Settle.{
  map_get, retry_delay, requeued_at, message_of, Reply, done, threw, Settling, Settled, settled,
  failed, notify, dead_letter, apply_row, expire_row, settle_rows, is_retry,
}

pub data Fate : Type 0 where
  acks dies : Fate
  requeues : ℕ → Fate

-- What a fate makes of the row: a requeued row has no lease, and becomes visible at the time.
abbrev pub after : Fate → Edit
after acks r = none
after dies r = none
after (requeues at) r = some (requeued_at at r)

-- A delivery that is retried dies once its attempts have passed the limit.
abbrev pub retry_fate : ConsumerOptions → ℕ → Row → Fate
retry_fate opts at r = if ltb opts.max_retries r.attempts then dies else requeues at

-- Acknowledged only if the handler answered `ok`, and asked neither for the batch nor for this
-- message again.
abbrev pub is_acked : DeliveryResult → Text → Bool
is_acked result id = elim result.retry [
  | true ↦ false
  | false ↦ elim result.outcome [
    | exception ↦ false
    | ok_outcome ↦ elim (map_get id result.retry_messages) [ none ↦ true | some _ ↦ false ]
  ]
]

abbrev pub apply_fate : DeliveryResult → ConsumerOptions → ℕ → Row → Fate
apply_fate result opts now r =
    if is_acked result r.id
    then acks
    else retry_fate opts (now + retry_delay result opts r.id * 1000) r

abbrev is_ack : Fate → ℕ
is_ack acks = 1
is_ack _ = 0

abbrev is_requeue : Fate → ℕ
is_requeue (requeues at) = 1
is_requeue _ = 0

abbrev pub last_words : Fate → Row → List LeasedMessage
last_words dies r = message_of r ∷ []
last_words _ r = []

abbrev pub count_acks : (Row → Fate) → Table → ℕ
count_acks fate [] = 0
count_acks fate (r ∷ t) = is_ack (fate r) + count_acks fate t

abbrev pub count_requeues : (Row → Fate) → Table → ℕ
count_requeues fate [] = 0
count_requeues fate (r ∷ t) = is_requeue (fate r) + count_requeues fate t

abbrev pub dead_of : (Row → Fate) → Table → List LeasedMessage
dead_of fate [] = []
dead_of fate (r ∷ t) = last_words (fate r) r ++ dead_of fate t

module _ {World : Type 0} (on_dead_letter : Option (World → LeasedMessage → Reply World)) where
  -- The callback, for one message after the other.
  unfoldable pub notify_all : List LeasedMessage → World → Reply World
  notify_all [] w = done w
  notify_all (m ∷ ms) w = elim (notify on_dead_letter w m) [
    | threw w' ↦ threw w'
    | done w' ↦ notify_all ms w'
  ]

  -- What one round that does not throw has done.
  pub record Round (fate : Fate) (r : Row) (s s' : Settling World) : Type 0 where
    pub table : s'.table ≡ pass (only r.id (after fate)) s.table
    pub acked : s'.acked ≡ s.acked + is_ack fate
    pub retried : s'.retried ≡ s.retried + is_requeue fate
    pub dead_lettered : s'.dead_lettered ≡ s.dead_lettered ++ last_words fate r
    pub world : notify_all (last_words fate r) s.world ≡ done s'.world

  dead_letter-Round :
      (r : Row) (s s' : Settling World)
      → dead_letter on_dead_letter r s ≡ settled s'
      → Round dies r s s'
  unfolding dead_letter notify_all
  dead_letter-Round r s s' e = ground (arith, delete_where-pass r.id s.table)

  retry_row-Round :
      (opts : ConsumerOptions) (at : ℕ) (r : Row) (s s' : Settling World)
      → (if ltb opts.max_retries r.attempts
          then dead_letter on_dead_letter r s
          else settled (record s {
            table = update_where r.id (requeued_at at) s.table;
            retried = s.retried + 1;
          }))
        ≡ settled s'
      → Round (retry_fate opts at r) r s s'
  unfolding notify_all
  retry_row-Round opts at r s s' e = elim (Bool-cases (ltb opts.max_retries r.attempts)) [
    | inl spent ↦ rw spent (dead_letter-Round r s s' (ground arith))
    | inr left ↦ rw left (requeued (ground arith))
  ]
    where
      requeued :
          settled (record s {
            table = update_where r.id (requeued_at at) s.table;
            retried = s.retried + 1;
          })
            ≡ settled s'
          → Round (requeues at) r s s'
      requeued q =
          ground
            (arith, update_where-pass r.id (requeued_at at) s.table, append-nil s.dead_lettered)

  -- `act` decides by `fate` what becomes of each row.
  abbrev pub Obeys : (Row → Settling World → Settled World) → (Row → Fate) → Type 0
  Obeys act fate = (r : Row) (s s' : Settling World) → act r s ≡ settled s' → Round (fate r) r s s'

  pub expire_row-Round :
      (opts : ConsumerOptions) (now : ℕ)
      → Obeys (expire_row on_dead_letter opts now) (retry_fate opts now)
  unfolding expire_row
  expire_row-Round opts now r s s' e = retry_row-Round opts now r s s' e

  pub is_acked-is_retry :
      (result : DeliveryResult) (id : Text) → is_retry result id ≡ not (is_acked result id)
  is_acked-is_retry result id = ground (arith, Option-cases (map_get id result.retry_messages))

  pub apply_row-Round :
      (result : DeliveryResult) (opts : ConsumerOptions) (now : ℕ)
      → Obeys (apply_row on_dead_letter result opts now) (apply_fate result opts now)
  unfolding apply_row notify_all
  apply_row-Round result opts now r s s' e = elim (Bool-cases (is_acked result r.id)) [
    | inl acked ↦ rw acked (removed (is_acked-is_retry result r.id ∙ ap not acked))
    | inr retried ↦
        rw retried
          (retry_row-Round opts _ r s s' (again (is_acked-is_retry result r.id ∙ ap not retried)))
  ]
    where
      removed : is_retry result r.id ≡ false → Round acks r s s'
      removed q = ground (arith, delete_where-pass r.id s.table, append-nil s.dead_lettered)

      again :
          is_retry result r.id ≡ true
          → (if ltb opts.max_retries r.attempts
              then dead_letter on_dead_letter r s
              else settled (record s {
                table =
                    update_where r.id
                      (requeued_at (now + retry_delay result opts r.id * 1000))
                      s.table;
                retried = s.retried + 1;
              }))
            ≡ settled s'
      again q = ground arith

  -- What the loop has done when it ends.
  pub record Rounds (fate : Row → Fate) (rows : Table) (s s' : Settling World) : Type 0 where
    pub table : s'.table ≡ edit_all (λ r. after (fate r)) rows s.table
    pub acked : s'.acked ≡ s.acked + count_acks fate rows
    pub retried : s'.retried ≡ s.retried + count_requeues fate rows
    pub dead_lettered : s'.dead_lettered ≡ s.dead_lettered ++ dead_of fate rows
    pub world : notify_all (dead_of fate rows) s.world ≡ done s'.world

  pub notify_all-append :
      (ms ns : List LeasedMessage) (w w' : World)
      → notify_all ms w ≡ done w'
      → notify_all (ms ++ ns) w ≡ notify_all ns w'
  unfolding notify_all
  notify_all-append [] ns w w' e = ground arith
  notify_all-append (m ∷ ms) ns w w' e =
      go (notify on_dead_letter w m) refl (λ v. notify_all-append ms ns v w')
    where
      go :
          (x : Reply World)
          → notify on_dead_letter w m ≡ x
          → ((v : World) → notify_all ms v ≡ done w' → notify_all (ms ++ ns) v ≡ notify_all ns w')
          → notify_all ((m ∷ ms) ++ ns) w ≡ notify_all ns w'
      go (threw v) q ih = ground arith
      go (done v) q ih = rw (q, notify_all) (ih v (ground arith))

  pub settle_rows-Rounds :
      (act : Row → Settling World → Settled World) (fate : Row → Fate)
      → Obeys act fate
      → (rows : Table) (s s' : Settling World) → settle_rows act rows s ≡ settled s'
      → Rounds fate rows s s'
  unfolding settle_rows edit_all notify_all
  settle_rows-Rounds act fate ob [] s s' e = ground (arith, append-nil s.dead_lettered)
  settle_rows-Rounds act fate ob (r ∷ rows) s s' e =
      go (act r s) refl (λ m. settle_rows-Rounds act fate ob rows m s')
    where
      go :
          (x : Settled World)
          → act r s ≡ x
          → ((m : Settling World) → settle_rows act rows m ≡ settled s' → Rounds fate rows m s')
          → Rounds fate (r ∷ rows) s s'
      go (failed w) q ih = absurd (ground arith)
      go (settled m) q ih =
          let one = ob r s m q in
          let rest = ih m (ground arith) in
          record {
            table = rest.table ∙ ap (edit_all _ rows) one.table;
            acked = omega arith;
            retried = omega arith;
            dead_lettered =
                rest.dead_lettered
                ∙ ap (λ l. l ++ dead_of fate rows) one.dead_lettered
                ∙ append_assoc s.dead_lettered (last_words (fate r) r) (dead_of fate rows);
            world = notify_all-append _ (dead_of fate rows) s.world m.world one.world ∙ rest.world;
          }
