-- ===== src/Queue/Enqueue/AllOrNothing.antt =====
-- When `enqueue` accepts a batch, and what it writes.
use hobbyist.Base.{
  ℕ, suc, ◌+◌, ◌≤◌, ◌≡◌, ◌≢◌, ◌↔◌, ◌⊎◌, refl, sym, ap, ◌∙◌, Text, List, [], ◌∷◌, ◌++◌, Option, none,
  some, All, length, append_assoc, append-nil, arith, inl, inr,
}
use hobbyist.Queue.Ids.{Ids, new_message_id}
use hobbyist.Queue.Message.{
  EnqueueInput, JsNumber, whole, below_zero, not_whole, Result, ok, err, Refusal, primary_key,
  max_batch_count, max_batch_bytes, max_message_bytes, max_delay_seconds, body_bytes,
}
use hobbyist.Queue.Table.{Table, insert_row}
use hobbyist.Queue.Enqueue.{
  delay_of, check_inputs, check_batch, fresh_row, Enqueued, insert_all, enqueue,
}

-- A delay is left out, or is a whole number of seconds up to a day.
abbrev pub IsDelay : Option JsNumber → Type 0
IsDelay none = Unit {0}
IsDelay (some (whole d)) = d ≤ max_delay_seconds
IsDelay (some (below_zero d)) = ⊥
IsDelay (some not_whole) = ⊥

abbrev pub IsSendable : EnqueueInput → Type 0
IsSendable input = (body_bytes input.body ≤ max_message_bytes) × IsDelay input.delay_seconds

abbrev pub total_bytes : List EnqueueInput → ℕ
total_bytes [] = 0
total_bytes (input ∷ inputs) = body_bytes input.body + total_bytes inputs

-- A batch within every limit.
pub record IsAccepted (inputs : List EnqueueInput) : Type 0 where
  pub count : length inputs ≤ max_batch_count
  pub each : All IsSendable inputs
  pub total : total_bytes inputs ≤ max_batch_bytes

delay_of_iff : (d : Option JsNumber) → (delay_of d ≢ none) ↔ IsDelay d
unfolding delay_of
delay_of_iff none = ground arith
delay_of_iff (some (whole d)) = ground arith
delay_of_iff (some (below_zero d)) = ground arith
delay_of_iff (some not_whole) = ground arith

check_inputs_complete :
    (inputs : List EnqueueInput) (total : ℕ)
    → All IsSendable inputs
    → check_inputs inputs total ≡ ok (total + total_bytes inputs)
unfolding check_inputs
check_inputs_complete [] total h = ground arith
check_inputs_complete (input ∷ inputs) total ((small, delay), h) = ground (
  arith,
  check_inputs_complete inputs (total + body_bytes input.body) h,
  (delay_of_iff input.delay_seconds).1 delay,
)

check_inputs_sound :
    (inputs : List EnqueueInput) (total sum : ℕ)
    → check_inputs inputs total ≡ ok sum
    → All IsSendable inputs × (sum ≡ total + total_bytes inputs)
unfolding check_inputs
check_inputs_sound [] total sum e = (tt, ground arith)
check_inputs_sound (input ∷ inputs) total sum e =
    let small : body_bytes input.body ≤ max_message_bytes = ground arith in
    let some_delay : delay_of input.delay_seconds ≢ none = ground arith in
    let (rest, same) =
      check_inputs_sound inputs (total + body_bytes input.body) sum (ground arith) in
    (((small, (delay_of_iff input.delay_seconds).0 some_delay), rest), omega arith)

-- The checks that run first pass exactly the batches within every limit.
pub check_batch_iff : (inputs : List EnqueueInput) → (check_batch inputs ≡ none) ↔ IsAccepted inputs
check_batch_iff inputs = (sound, complete)
  where
    sound : check_batch inputs ≡ none → IsAccepted inputs
    sound e = go (check_inputs inputs 0) refl
      where
        go : (x : Result ℕ) → check_inputs inputs 0 ≡ x → IsAccepted inputs
        go (err r) q = absurd (unfold check_batch in ground arith)
        go (ok sum) q =
            let (each, same) = check_inputs_sound inputs 0 sum q in
            record {
              count = unfold check_batch in ground arith;
              each = each;
              total = unfold check_batch in ground arith;
            }

    complete : IsAccepted inputs → check_batch inputs ≡ none
    complete a = unfold check_batch in ground (arith, check_inputs_complete inputs 0 a.each)

-- The rows that a batch becomes, with the ids in order.
abbrev pub rows_of : List Text → List EnqueueInput → ℕ → Table
rows_of (id ∷ ids) (input ∷ inputs) now = fresh_row id input now ∷ rows_of ids inputs now
rows_of _ _ now = []

module _ (random_int : ℕ → ℕ) where
  -- A batch over a limit is refused with that limit as the error: no row is written and no id made.
  pub enqueue_refused :
      (s : Ids) (t : Table) (inputs : List EnqueueInput) (now : ℕ)
      → ¬ IsAccepted inputs
      → let e = enqueue random_int s t inputs now in
        (e.table ≡ t)
        × (e.ids ≡ s)
        × ((r : Refusal) × (e.result ≡ err r) × (check_batch inputs ≡ some r))
  unfolding enqueue
  enqueue_refused s t inputs now h = go (check_batch inputs) refl
    where
      go :
          (x : Option Refusal)
          → check_batch inputs ≡ x
          → let e = enqueue random_int s t inputs now in
            (e.table ≡ t)
            × (e.ids ≡ s)
            × ((r : Refusal) × (e.result ≡ err r) × (check_batch inputs ≡ some r))
      go none q = absurd (h ((check_batch_iff inputs).0 q))
      go (some r) q = (ground arith, ground arith, (r, ground arith, q))

  -- What a run of the insert loop that ends well has written.
  abbrev Wrote : Table → List EnqueueInput → ℕ → List Text → Enqueued → List Text → Type 0
  Wrote t inputs now out e ids =
      (new : List Text) × (ids ≡ out ++ new)
      × (length new ≡ length inputs)
      × (e.table ≡ t ++ rows_of new inputs now)

  insert_all-Wrote :
      (s : Ids) (t : Table) (inputs : List EnqueueInput) (now : ℕ) (out ids : List Text)
      → (insert_all random_int s t inputs now out).result ≡ ok ids
      → Wrote t inputs now out (insert_all random_int s t inputs now out) ids
  unfolding insert_all
  insert_all-Wrote s t [] now out ids e =
      ([], ground (arith, append-nil out), refl, sym (append-nil t))
  insert_all-Wrote s t (input ∷ inputs) now out ids e =
      go (insert_row (fresh_row id input now) t) refl
        (λ t'. insert_all-Wrote s' t' inputs now (out ++ id ∷ []) ids)
    where
      id : Text
      id = (new_message_id random_int s now).0

      s' : Ids
      s' = (new_message_id random_int s now).1

      go :
          (x : Option Table)
          → insert_row (fresh_row id input now) t ≡ x
          → ((t' : Table)
              → (insert_all random_int s' t' inputs now (out ++ id ∷ [])).result ≡ ok ids
              → Wrote t' inputs now
                  (out ++ id ∷ [])
                  (insert_all random_int s' t' inputs now (out ++ id ∷ []))
                  ids)
          → Wrote t
              (input ∷ inputs)
              now
              out
              (insert_all random_int s t (input ∷ inputs) now out)
              ids
      go none q ih = absurd (ground arith)
      go (some t') q ih =
          let (new, all_ids, count, table) = ih t' (ground arith) in
          let row_added : t' ≡ t ++ fresh_row id input now ∷ [] =
            unfold insert_row in ground arith in
          (
            id ∷ new,
            all_ids ∙ append_assoc out (id ∷ []) new,
            ap suc count,
            rw (q, insert_all)
                (table
                  ∙ ap (λ x. x ++ rows_of new inputs now) row_added
                  ∙ append_assoc t (fresh_row id input now ∷ []) _),
          )

  -- The insert loop fails on a used primary key only.
  insert_all-err :
      (s : Ids) (t : Table) (inputs : List EnqueueInput) (now : ℕ) (out : List Text) (r : Refusal)
      → (insert_all random_int s t inputs now out).result ≡ err r
      → r ≡ primary_key
  unfolding insert_all
  insert_all-err s t [] now out r e = cc
  insert_all-err s t (input ∷ inputs) now out r e =
      go (insert_row (fresh_row (new_message_id random_int s now).0 input now) t) refl (λ t'.
        insert_all-err (new_message_id random_int s now).1 t' inputs now
          (out ++ (new_message_id random_int s now).0 ∷ []) r)
    where
      go :
          (x : Option Table)
          → insert_row (fresh_row (new_message_id random_int s now).0 input now) t ≡ x
          → ((t' : Table)
              → (insert_all random_int
                  (new_message_id random_int s now).1
                  t'
                  inputs
                  now
                  (out ++ (new_message_id random_int s now).0 ∷ [])).result
                ≡ err r
              → r ≡ primary_key)
          → r ≡ primary_key
      go none q ih = ground arith
      go (some t') q ih = ih t' (ground arith)

  enqueue-insert_all :
      (s : Ids) (t : Table) (inputs : List EnqueueInput) (now : ℕ)
      → IsAccepted inputs
      → enqueue random_int s t inputs now ≡ insert_all random_int s t inputs now []
  unfolding enqueue
  enqueue-insert_all s t inputs now a = rw ((check_batch_iff inputs).1 a, enqueue)

  -- An accepted batch that is answered by ids has one new row for each message, in the order of the
  -- ids, behind the rows that were there, which are unchanged; no other error than a used primary
  -- key is possible.
  pub enqueue_accepted :
      (s : Ids) (t : Table) (inputs : List EnqueueInput) (now : ℕ)
      → IsAccepted inputs
      → let e = enqueue random_int s t inputs now in
        ((ids : List Text) × (e.result ≡ ok ids)
          × (length ids ≡ length inputs)
          × (e.table ≡ t ++ rows_of ids inputs now))
        ⊎ (e.result ≡ err primary_key)
  enqueue_accepted s t inputs now a =
      rw (enqueue-insert_all s t inputs now a)
        (go (insert_all random_int s t inputs now []).result refl)
    where
      go :
          (x : Result (List Text))
          → (insert_all random_int s t inputs now []).result ≡ x
          → ((ids : List Text) × ((insert_all random_int s t inputs now []).result ≡ ok ids)
              × (length ids ≡ length inputs)
              × ((insert_all random_int s t inputs now []).table ≡ t ++ rows_of ids inputs now))
            ⊎ ((insert_all random_int s t inputs now []).result ≡ err primary_key)
      go (err r) q = inr (q ∙ ap err (insert_all-err s t inputs now [] r q))
      go (ok ids) q =
          let (new, same, count, table) = insert_all-Wrote s t inputs now [] ids q in
          inl (ids, q, ap length same ∙ count, rw same table)
