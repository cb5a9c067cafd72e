-- ===== src/Queue/Mailbox/Refines.antt =====
-- The broker's operations on its table refine those of the mailbox that the table holds.
use hobbyist.Base.{
  ℕ, zero, suc, ◌+◌, ◌≡◌, ◌≤◌, refl, sym, ap, ◌∙◌, true, false, Text, List, [], ◌∷◌, ◌++◌, Option,
  none, some, is_some, if◌then◌else◌, keep, map, take, length, length-take-le, arith, Bool-cases,
  inl, inr,
}
use hobbyist.Queue.Ids.{Ids, new_message_id}
use hobbyist.Queue.Message.{Row, ConsumerOptions, EnqueueInput, Refusal}
use hobbyist.Queue.Table.{Table, has_id, find_row, HasDistinctIds, insert_row, order_by_id}
use hobbyist.Queue.Table.Select.{has_id-order_by_id}
use hobbyist.Queue.Table.Edits.{edit_found}
use hobbyist.Queue.Enqueue.{fresh_row, insert_all, check_batch, enqueue, purge}
use hobbyist.Queue.Lease.{is_ready, ready_rows, lease_batch, claim}
use hobbyist.Queue.Lease.Exclusive.{
  claims, lease_batch-table, has_id-take, ready_rows-HasDistinctIds,
}
use hobbyist.Queue.Settle.NoLoss.{find_row-id}
use hobbyist.Queue.Mailbox.Dead.{apply_result-Settles, expire_leases-Settles}
use hobbyist.Queue.Enqueue.AllOrNothing.{check_batch_iff}
use hobbyist.Queue.WellFormed.{claims-Keeps}
use hobbyist.Queue.WellFormed.Reachable.{
  BrokerStep, enqueues, leases, applies, expires, sweeps, dead_letters, purges, Reach, here, next,
  Reach-IsWellFormed,
}
use hobbyist.Queue.Mailbox.{
  Mailbox, edited, put, IsPosted, Posts, all_posted, is_used, post, IsOnce, IsReady, Operation,
  enqueue_op, lease_op, apply_op, expire_op, sweep_op, dead_letter_op, purge_op, is_in, MailStep,
  refused, takes, settles, receives, empties, MailReach,
}
use hobbyist.Queue.Mailbox as Mail
use hobbyist.Queue.Mailbox.Contents.{contents, find_row-pass, find_row-keep_iff, is_some-find_row}
use hobbyist.Queue.Mailbox.Statements.{
  contents-insert_row, insert_row-used, sweep_retention-contents, insert_dead_letter-contents,
  kept-IsReady,
}

fresh_row-IsPosted :
    (id : Text) (input : EnqueueInput) (now : ℕ) → IsPosted id input now (fresh_row id input now)
fresh_row-IsPosted id input now = record {
  named = refl;
  body = refl;
  content_type = refl;
  unleased = refl;
  undelivered = refl;
  sent = refl;
  visible = refl;
}

-- A row of the batch is ready, under its id in the table.
ready_rows-IsReady :
    (t : Table) (now limit : ℕ) (id : Text)
    → HasDistinctIds t
    → has_id id (ready_rows t now limit) ≡ true
    → IsReady now (contents t id)
unfolding ready_rows
ready_rows-IsReady t now limit id d h = elim (Bool-cases (has_id id (keep (is_ready now) t))) [
  | inl hit ↦ kept-IsReady now (contents t id) (
      ap is_some (sym (find_row-keep_iff (is_ready now) id t d))
      ∙ is_some-find_row id (keep (is_ready now) t)
      ∙ hit)
  | inr miss ↦
      let absent = has_id-take id limit _ (has_id-order_by_id id (keep (is_ready now) t) ∙ miss) in
      absurd (ground (arith, h, absent))
]

has_id-ids : (id : Text) (rows : Table) → is_in id (map (λ r. r.id) rows) ≡ has_id id rows
has_id-ids id [] = refl
has_id-ids id (r ∷ rows) = ground (arith, has_id-ids id rows)

length-ids : (rows : Table) → length (map (λ r. r.id) rows) ≡ length rows
length-ids [] = refl
length-ids (r ∷ rows) = ap suc (length-ids rows)

IsOnce-ids : (rows : Table) → HasDistinctIds rows → IsOnce (map (λ r. r.id) rows)
IsOnce-ids [] d = tt
IsOnce-ids (r ∷ rows) (h, d) = (has_id-ids r.id rows ∙ h, IsOnce-ids rows d)

-- What is left out of the first `n` is behind `n` others.
length-take_all :
    (id : Text) (n : ℕ) (t : Table)
    → has_id id t ≡ true
    → has_id id (take n t) ≡ false
    → length (take n t) ≡ n
length-take_all id zero t h k = refl
length-take_all id (suc n) [] h k = absurd (ground (arith, h))
length-take_all id (suc n) (r ∷ t) h k =
    ap suc (length-take_all id n t (ground (arith, h, k)) (ground (arith, k)))

ready-kept :
    (now : ℕ) (o : Option Row)
    → IsReady now o
    → is_some (edited (λ r. if is_ready now r then some r else none) o) ≡ true
ready-kept now none h = absurd h
ready-kept now (some r) h = rw h refl

-- A ready message is left behind a whole batch only.
ready_rows-full :
    (t : Table) (now limit : ℕ) (id : Text)
    → HasDistinctIds t
    → IsReady now (contents t id)
    → has_id id (ready_rows t now limit) ≡ false
    → length (ready_rows t now limit) ≡ limit
unfolding ready_rows
ready_rows-full t now limit id d ready left =
    length-take_all id limit (order_by_id (keep (is_ready now) t))
      (has_id-order_by_id id _
        ∙ sym (is_some-find_row id (keep (is_ready now) t))
        ∙ ap is_some (find_row-keep_iff (is_ready now) id t d)
        ∙ ready-kept now (contents t id) ready)
      left

ids-le : (t : Table) (now limit : ℕ) → length (map (λ r. r.id) (ready_rows t now limit)) ≤ limit
unfolding ready_rows
ids-le t now limit =
    rw (length-ids (take limit (order_by_id (keep (is_ready now) t))))
      (length-take-le limit (order_by_id (keep (is_ready now) t)))

claims-edited :
    (lease : Text) (ends : ℕ) (rows : Table) (id : Text) (o : Option Row)
    → ((r : Row) → o ≡ some r → r.id ≡ id)
    → edited (claims lease ends rows) o
      ≡ (if has_id id rows then edited (λ r. some (claim lease ends r)) o else o)
unfolding edit_found
claims-edited lease ends rows id none same = ground arith
claims-edited lease ends rows id (some r) same =
    ground (arith, is_some-find_row r.id rows, ap (λ i. has_id i rows) (same r refl))

module _ (random_int : ℕ → ℕ) where
  -- The ids that the messages of a batch get.
  abbrev pub drawn : Ids → ℕ → List EnqueueInput → List Text
  drawn s now [] = []
  drawn s now (input ∷ inputs) =
      (new_message_id random_int s now).0 ∷ drawn (new_message_id random_int s now).1 now inputs

  insert_all-Posts :
      (s : Ids) (t : Table) (inputs : List EnqueueInput) (now : ℕ) (out : List Text)
      → Posts now
          (contents (insert_all random_int s t inputs now out).table)
          (contents t)
          (drawn s now inputs)
          inputs
  unfolding insert_all
  insert_all-Posts s t [] now out = all_posted (λ id. refl)
  insert_all-Posts s t (input ∷ inputs) now out =
      go (insert_row (fresh_row (new_message_id random_int s now).0 input now) t) refl (λ t'.
        insert_all-Posts (new_message_id random_int s now).1 t' inputs now
          (out ++ (new_message_id random_int s now).0 ∷ []))
    where
      go :
          (x : Option Table)
          → insert_row (fresh_row (new_message_id random_int s now).0 input now) t ≡ x
          → ((t' : Table)
              → Posts now
                  (contents
                    (insert_all random_int
                      (new_message_id random_int s now).1
                      t'
                      inputs
                      now
                      (out ++ (new_message_id random_int s now).0 ∷ [])).table)
                  (contents t')
                  (drawn (new_message_id random_int s now).1 now inputs)
                  inputs)
          → Posts now
              (contents (insert_all random_int s t (input ∷ inputs) now out).table)
              (contents t)
              (drawn s now (input ∷ inputs))
              (input ∷ inputs)
      go none q ih =
          rw (q, insert_all) (is_used _ _ input inputs (insert_row-used _ t q) (λ id. refl))
      go (some t') q ih =
          let (unused, posted) = contents-insert_row _ t t' q in
          rw (q, insert_all)
            (post _ _ _ input inputs unused (fresh_row-IsPosted _ input now)
              (rw (← posted) (ih t')))

  enqueue-MailStep :
      {World : Type 0} (s : Ids) (t : Table) (inputs : List EnqueueInput) (now : ℕ)
      → MailStep {World = World}
          (contents t)
          (contents (enqueue random_int s t inputs now).table)
          (enqueue_op (drawn s now inputs) inputs now)
  unfolding enqueue
  enqueue-MailStep {World} s t inputs now = go (check_batch inputs) refl
    where
      go :
          (x : Option Refusal)
          → check_batch inputs ≡ x
          → MailStep {World = World}
              (contents t)
              (contents (enqueue random_int s t inputs now).table)
              (enqueue_op (drawn s now inputs) inputs now)
      go none q =
          rw (q, enqueue)
            (Mail.posts _ inputs now ((check_batch_iff inputs).0 q)
              (insert_all-Posts s t inputs now []))
      go (some e) q =
          rw (q, enqueue)
            (refused _ inputs now (λ a. absurd (ground (arith, q, (check_batch_iff inputs).1 a)))
              (λ id. refl))

  lease_batch-MailStep :
      {World : Type 0} (s : Ids) (t : Table) (opts : ConsumerOptions) (now lease : ℕ)
      → HasDistinctIds t
      → MailStep {World = World}
          (contents t)
          (contents (lease_batch random_int s t opts now lease).table)
          (lease_op (new_message_id random_int s now).0 opts now lease)
  lease_batch-MailStep s t opts now lease d =
      let rows = ready_rows t now opts.max_batch_size in
      let lease_id = (new_message_id random_int s now).0 in
      takes lease_id opts now lease (map (λ r. r.id) rows)
        (IsOnce-ids rows (ready_rows-HasDistinctIds t now opts.max_batch_size d))
        (ids-le t now opts.max_batch_size)
        (λ id h. ready_rows-IsReady t now opts.max_batch_size id d (sym (has_id-ids id rows) ∙ h))
        (λ id ready left.
          length-ids rows
          ∙ ready_rows-full t now opts.max_batch_size id d ready (sym (has_id-ids id rows) ∙ left))
        (λ id. rw (lease_batch-table random_int s t opts now lease d) (
          find_row-pass _ id t (claims-Keeps lease_id (now + lease) rows) d
          ∙ claims-edited lease_id (now + lease) rows id (contents t id) (find_row-id id t)
          ∙ ap
              (λ b.
                if b
                then edited (λ r. some (claim lease_id (now + lease) r)) (contents t id)
                else contents t id)
              (sym (has_id-ids id rows))))

  abbrev pub operation_of :
      {World : Type 0} {t u : Table} → BrokerStep random_int World t u → Operation World
  operation_of (enqueues s t inputs now) = enqueue_op (drawn s now inputs) inputs now
  operation_of (leases s t opts now lease) =
      lease_op (new_message_id random_int s now).0 opts now lease
  operation_of (applies f t w lease result opts now) = apply_op f w lease result opts now
  operation_of (expires f t w opts now) = expire_op f w opts now
  operation_of (sweeps t seconds now) = sweep_op seconds now
  operation_of (dead_letters t m now) = dead_letter_op m now
  operation_of (purges t) = purge_op

  -- On a table with distinct ids every operation of the broker does to the messages, id by id, what
  -- the mailbox promises of it: a batch within the limits is posted whole, up to an id that is used;
  -- a lease takes a whole batch of ready messages, or all that there are; the messages of a
  -- settlement meet their fates unless the dead letter callback threw for one of those that die.
  pub BrokerStep-MailStep :
      {World : Type 0} {t u : Table} (st : BrokerStep random_int World t u)
      → HasDistinctIds t
      → MailStep (contents t) (contents u) (operation_of st)
  unfolding purge find_row
  BrokerStep-MailStep (enqueues s t inputs now) d = enqueue-MailStep s t inputs now
  BrokerStep-MailStep (leases s t opts now lease) d = lease_batch-MailStep s t opts now lease d
  BrokerStep-MailStep (applies f t w lease result opts now) d =
      settles f w lease result opts now (apply_result-Settles f t w lease result opts now d)
  BrokerStep-MailStep (expires f t w opts now) d =
      Mail.expires f w opts now (expire_leases-Settles f t w opts now d)
  BrokerStep-MailStep (sweeps t seconds now) d =
      Mail.sweeps seconds now (λ id. sweep_retention-contents t seconds now id d)
  BrokerStep-MailStep (dead_letters t m now) d =
      receives m now (λ id. insert_dead_letter-contents t m now id)
  BrokerStep-MailStep (purges t) d = empties (λ id. refl)

  -- Every history of the broker from an empty table is one of the mailbox from an empty one.
  pub Reach-MailReach :
      {World : Type 0} {t : Table}
      → Reach random_int World [] t
      → MailReach World (λ id. none) (contents t)
  unfolding find_row
  Reach-MailReach here = Mail.here
  Reach-MailReach (next r st) =
      Mail.next (Reach-MailReach r)
        (BrokerStep-MailStep st (Reach-IsWellFormed random_int r).distinct)
