-- ===== src/Queue/Mailbox.antt =====
-- What the broker (packages/queue/src/broker.ts) promises of a queue, without its table: a mailbox
-- holds a message under an id, or none, and every operation is told by what it does to each id. The
-- order of rows, the statements, the loops and the transactions are forgotten.
pub mod Contents
pub mod Statements
pub mod Dead
pub mod Refines
pub mod Held
use hobbyist.Base.{
  ℕ, ◌≡◌, ◌≤◌, Bool, true, false, Text, text_eq, List, [], ◌∷◌, Option, none, some, All,
  if◌then◌else◌, is_some, any, length, ◌+◌,
}
use hobbyist.Queue.Message.{Row, ConsumerOptions, LeasedMessage, DeliveryResult, EnqueueInput}
use hobbyist.Queue.Enqueue.{delay_ms}
use hobbyist.Queue.Enqueue.AllOrNothing.{IsAccepted}
use hobbyist.Queue.Lease.{is_ready, claim}
use hobbyist.Queue.Settle.{is_under, is_expired, message_of, Reply, done, threw}
use hobbyist.Queue.Settle.OnePass.{Fate, dies, after, apply_fate, retry_fate, notify_all}
use hobbyist.Queue.Table.Select.{edit_if}
use hobbyist.Queue.Retain.{is_doomed, dead_row}

abbrev pub Mailbox : Type 0
Mailbox = Text → Option Row

-- An edit of the message under an id, if there is one.
abbrev pub edited : (Row → Option Row) → Option Row → Option Row
edited f none = none
edited f (some r) = f r

abbrev pub put : Row → Mailbox → Mailbox
put r box id = if text_eq r.id id then some r else box id

-- The message as its producer sends it at `now`: under its id, not delivered yet, and visible once
-- its delay has passed.
pub record IsPosted (id : Text) (input : EnqueueInput) (now : ℕ) (r : Row) : Type 0 where
  pub named : r.id ≡ id
  pub body : r.body ≡ input.body
  pub content_type : r.content_type ≡ input.content_type
  pub unleased : r.lease_id ≡ none
  pub undelivered : r.attempts ≡ 0
  pub sent : r.enqueued_at ≡ now
  pub visible : r.visible_at ≡ now + delay_ms input.delay_seconds

-- Messages are put under the ids that were made for them, one after the other, up to one whose id is
-- used.
pub data Posts (now : ℕ) (box' : Mailbox) : Mailbox → List Text → List EnqueueInput → Type 0 where
  all_posted : {box : Mailbox} → ((id : Text) → box' id ≡ box id) → Posts now box' box [] []
  is_used :
      {box : Mailbox} (id : Text) (ids : List Text) (input : EnqueueInput)
      (inputs : List EnqueueInput)
      → is_some (box id) ≡ true
      → ((i : Text) → box' i ≡ box i)
      → Posts now box' box (id ∷ ids) (input ∷ inputs)
  post :
      {box : Mailbox} (r : Row) (id : Text) (ids : List Text) (input : EnqueueInput)
      (inputs : List EnqueueInput)
      → box id ≡ none
      → IsPosted id input now r
      → Posts now box' (put r box) ids inputs
      → Posts now box' box (id ∷ ids) (input ∷ inputs)

-- A message that may be handed out.
abbrev pub IsReady : ℕ → Option Row → Type 0
IsReady now none = ⊥
IsReady now (some r) = is_ready now r ≡ true

-- The operations, with their arguments and the ids that the generator has for them.
pub data Operation (World : Type 0) : Type 0 where
  enqueue_op : List Text → List EnqueueInput → ℕ → Operation World
  lease_op : Text → ConsumerOptions → ℕ → ℕ → Operation World
  apply_op :
      Option (World → LeasedMessage → Reply World)
      → World
      → Text
      → DeliveryResult
      → ConsumerOptions
      → ℕ
      → Operation World
  expire_op :
      Option (World → LeasedMessage → Reply World) → World → ConsumerOptions → ℕ → Operation World
  sweep_op : ℕ → ℕ → Operation World
  dead_letter_op : LeasedMessage → ℕ → Operation World
  purge_op : Operation World

abbrev pub is_in : Text → List Text → Bool
is_in id = any (λ i. text_eq i id)

abbrev pub IsOnce : List Text → Type 0
IsOnce [] = Unit
IsOnce (id ∷ ids) = (is_in id ids ≡ false) × IsOnce ids

-- The dead letters: the messages that `p` selects and whose fate is to die.
pub record IsDead (p : Row → Bool) (fate : Row → Fate) (box : Mailbox) (dead : List LeasedMessage)
    : Type 0 where
  pub each :
      All
        (λ m. (r : Row) × (box m.id ≡ some r) × (p r ≡ true) × (fate r ≡ dies) × (m ≡ message_of r))
        dead
  pub all_of :
      (id : Text) (r : Row)
      → box id ≡ some r
      → p r ≡ true
      → fate r ≡ dies
      → any (λ m. text_eq m.id id) dead ≡ true

-- The messages that `p` selects meet their fates, if the callback has taken the dead letters one
-- after the other; only if it threw for one of them, nothing has happened.
pub data Settles {World : Type 0} (f : Option (World → LeasedMessage → Reply World)) (w : World)
    (p : Row → Bool) (fate : Row → Fate) (box box' : Mailbox) : Type 0 where
  commits :
      (dead : List LeasedMessage) (w' : World)
      → IsDead p fate box dead
      → notify_all f dead w ≡ done w'
      → ((id : Text) → box' id ≡ edited (edit_if p (λ r. after (fate r))) (box id))
      → Settles f w p fate box box'
  rolls_back :
      (dead : List LeasedMessage) (w' : World)
      → IsDead p fate box dead
      → notify_all f dead w ≡ threw w'
      → ((id : Text) → box' id ≡ box id)
      → Settles f w p fate box box'

-- One operation, from `box` to `box'`.
pub data MailStep {World : Type 0} (box box' : Mailbox) : Operation World → Type 0 where
  -- A batch over a limit is refused.
  refused :
      (ids : List Text) (inputs : List EnqueueInput) (now : ℕ)
      → ¬ IsAccepted inputs
      → ((id : Text) → box' id ≡ box id)
      → MailStep box box' (enqueue_op ids inputs now)
  posts :
      (ids : List Text) (inputs : List EnqueueInput) (now : ℕ)
      → IsAccepted inputs
      → Posts now box' box ids inputs
      → MailStep box box' (enqueue_op ids inputs now)
  -- Ready messages are taken under the lease, with its end, and each counts one more attempt: a
  -- batch of them, or all that there are.
  takes :
      (lease : Text) (opts : ConsumerOptions) (now lease_ms : ℕ) (taken : List Text)
      → IsOnce taken
      → length taken ≤ opts.max_batch_size
      → ((id : Text) → is_in id taken ≡ true → IsReady now (box id))
      → ((id : Text)
          → IsReady now (box id)
          → is_in id taken ≡ false
          → length taken ≡ opts.max_batch_size)
      → ((id : Text)
          → box' id ≡ (
              if is_in id taken
              then edited (λ r. some (claim lease (now + lease_ms) r)) (box id)
              else box id))
      → MailStep box box' (lease_op lease opts now lease_ms)
  -- The messages under the lease meet the fates that the consumer's result gives them.
  settles :
      (f : Option (World → LeasedMessage → Reply World)) (w : World) (lease : Text)
      (result : DeliveryResult) (opts : ConsumerOptions) (now : ℕ)
      → Settles f w (is_under lease) (apply_fate result opts now) box box'
      → MailStep box box' (apply_op f w lease result opts now)
  -- The messages whose lease has run out are ready again, or out of attempts and gone.
  expires :
      (f : Option (World → LeasedMessage → Reply World)) (w : World) (opts : ConsumerOptions)
      (now : ℕ)
      → Settles f w (is_expired now) (retry_fate opts now) box box'
      → MailStep box box' (expire_op f w opts now)
  -- Old messages go.
  sweeps :
      (seconds now : ℕ)
      → ((id : Text)
          → box' id ≡ edited (λ r. if is_doomed seconds now r then none else some r) (box id))
      → MailStep box box' (sweep_op seconds now)
  -- A dead letter comes in, unless its id is there.
  receives :
      (m : LeasedMessage) (now : ℕ)
      → ((id : Text)
          → box' id ≡ (if is_some (box m.id) then box id else put (dead_row m now) box id))
      → MailStep box box' (dead_letter_op m now)
  empties : ((id : Text) → box' id ≡ none) → MailStep box box' purge_op

pub data MailReach (World : Type 0) (box : Mailbox) : Mailbox → Type 0 where
  here : MailReach World box box
  next :
      {b c : Mailbox} {op : Operation World}
      → MailReach World box b
      → MailStep b c op
      → MailReach World box c
