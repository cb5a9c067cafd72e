-- ===== src/Queue/Mailbox/Held.antt =====
-- What becomes of a message that a consumer holds.
use hobbyist.Base.{
  ℕ, ◌≡◌, refl, sym, ap, subst, ◌∙◌, Bool, true, false, Text, text_eq, text_eq_iff, List, Option,
  none, some, if◌then◌else◌, is_some, arith, Bool-cases, Option-cases, inl, inr,
}
use hobbyist.Queue.Message.{Row, LeasedMessage, EnqueueInput}
use hobbyist.Queue.Table.{Table, HasDistinctIds}
use hobbyist.Queue.Table.Select.{edit_if}
use hobbyist.Queue.Lease.{is_ready}
use hobbyist.Queue.Settle.{is_under, is_expired, Reply}
use hobbyist.Queue.Settle.OnePass.{Fate, after}
use hobbyist.Queue.Retain.{is_doomed}
use hobbyist.Queue.WellFormed.Reachable.{BrokerStep}
use hobbyist.Queue.Mailbox.{
  Mailbox, edited, Posts, all_posted, is_used, post, Settles, commits, rolls_back, IsReady,
  Operation, apply_op, expire_op, sweep_op, purge_op, is_in, MailStep, refused, posts, takes,
  settles, expires, sweeps, receives, empties,
}
use hobbyist.Queue.Mailbox.Contents.{contents}
use hobbyist.Queue.Mailbox.Refines.{operation_of, BrokerStep-MailStep}

-- The operations that may end a hold: the result for its lease, the expiry once the lease has run
-- out, the retention of an old message, and a purge.
abbrev pub may_release : {World : Type 0} → Operation World → Row → Bool
may_release (apply_op f w lease result opts now) r = is_under lease r
may_release (expire_op f w opts now) r = is_expired now r
may_release (sweep_op seconds now) r = is_doomed seconds now r
may_release purge_op r = true
may_release _ r = false

edit_if-kept :
    (p : Row → Bool) (act : Row → Row → Option Row) (o : Option Row) (r : Row)
    → o ≡ some r
    → p r ≡ false
    → edited (edit_if p act) o ≡ some r
edit_if-kept p act o r e q = rw (e, edit_if, q) refl

Posts-kept :
    {now : ℕ} {box' box : Mailbox} {ids : List Text} {inputs : List EnqueueInput} (id : Text)
    (r : Row)
    → Posts now box' box ids inputs
    → box id ≡ some r
    → box' id ≡ some r
Posts-kept id r (all_posted same) e = same id ∙ e
Posts-kept id r (is_used i ids input inputs used same) e = same id ∙ e
Posts-kept {box = box} id r (post s i ids input inputs unused new rest) e =
    elim (Bool-cases (text_eq s.id id)) [
      | inl hit ↦
          absurd (ground (arith, e, unused, ap box (sym new.named ∙ (text_eq_iff s.id id).0 hit)))
      | inr miss ↦ Posts-kept id r rest (rw miss e)
    ]

Settles-kept :
    {World : Type 0} {f : Option (World → LeasedMessage → Reply World)} {w : World} {p : Row → Bool}
    {fate : Row → Fate} {box box' : Mailbox} (id : Text) (r : Row)
    → Settles f w p fate box box'
    → box id ≡ some r
    → p r ≡ false
    → box' id ≡ some r
Settles-kept {p = p} {fate = fate} id r (commits dead w' h took made) e q =
    made id ∙ edit_if-kept p (λ s. after (fate s)) _ r e q
Settles-kept id r (rolls_back dead w' h threw same) e q = same id ∙ e

-- A message that a consumer holds stays as it is, whatever the mailbox does, but for an operation
-- that may release it.
pub held_kept :
    {World : Type 0} {box box' : Mailbox} {op : Operation World} (id : Text) (r : Row)
    → MailStep box box' op
    → box id ≡ some r
    → is_some r.lease_id ≡ true
    → may_release op r ≡ false
    → box' id ≡ some r
held_kept id r (refused ids inputs now bad same) e l q = same id ∙ e
held_kept id r (posts ids inputs now good ps) e l q = Posts-kept id r ps e
held_kept id r (takes lease opts now lease_ms taken once few ready full h) e l q =
    elim (Bool-cases (is_in id taken)) [
      | inl hit ↦
          let free : is_ready now r ≡ true = subst (IsReady now) e (ready id hit) in
          absurd (ground (arith, free, l))
      | inr miss ↦ rw (h id, miss) e
    ]
held_kept id r (settles f w lease result opts now h) e l q = Settles-kept id r h e q
held_kept id r (expires f w opts now h) e l q = Settles-kept id r h e q
held_kept id r (sweeps seconds now h) e l q =
    h id ∙ ap (edited _) e ∙ ap (λ b. if b then none else some r) q
held_kept {box = box} id r (receives m now h) e l q = elim (Option-cases (box m.id)) [
  | inl free ↦ elim (Bool-cases (text_eq m.id id)) [
    | inl hit ↦ absurd (ground (arith, e, free, ap box ((text_eq_iff m.id id).0 hit)))
    | inr miss ↦ rw (h id, free, miss) e
  ]
  | inr (s, used) ↦ rw (h id, used) e
]
held_kept id r (empties h) e l q = absurd (ground arith)

-- Whatever operation of the broker comes, on a table with distinct ids, a row under a lease stays as
-- it is, but for the result of that lease, the expiry once it has run out, the retention of an old
-- row, and a purge: no other batch gets it.
pub BrokerStep-kept :
    (random_int : ℕ → ℕ) {World : Type 0} {t u : Table} (st : BrokerStep random_int World t u)
    (id : Text) (r : Row)
    → HasDistinctIds t
    → contents t id ≡ some r
    → is_some r.lease_id ≡ true
    → may_release (operation_of random_int st) r ≡ false
    → contents u id ≡ some r
BrokerStep-kept random_int st id r d e l q =
    held_kept id r (BrokerStep-MailStep random_int st d) e l q
