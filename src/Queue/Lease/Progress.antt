-- ===== src/Queue/Lease/Progress.antt =====
-- A batch that is ready is leased, and while its lease stands the consumer counts as busy.
use hobbyist.Base.{
  ℕ, zero, suc, ◌+◌, ◌<◌, ◌≡◌, ◌≢◌, refl, ap, ◌∙◌, Bool, true, not, Text, text_eq, text_eq_self, [],
  ◌∷◌, none, some, keep, any, take, length, arith, Bool-cases, inl, inr, ◌==◌,
}
use hobbyist.Queue.Ids.{Ids, new_message_id}
use hobbyist.Queue.Message.{Row, ConsumerOptions, LeasedBatch}
use hobbyist.Queue.Table.{Table, has_id, find_row, order_by_id, HasDistinctIds}
use hobbyist.Queue.Table.Edits.{Edit, pass, edit_found}
use hobbyist.Queue.Table.Select.{has_id-order_by_id, has_id-keep, length-order_by_id}
use hobbyist.Queue.Settle.NoLoss.{find_row-id}
use hobbyist.Queue.Lease.{
  is_ready, ready_rows, is_batch_ready, claim, lease_batch, batch_of, claim_all, is_outstanding,
  has_outstanding_lease,
}
use hobbyist.Queue.Lease.Exclusive.{claims, lease_batch-table, find_row_of_has_id, has_id-take}

any-keep : (p : Row → Bool) (t : Table) → any p t ≡ true → not (length (keep p t) == 0) ≡ true
any-keep p [] h = absurd (ground arith)
any-keep p (r ∷ t) h = ground (arith, any-keep p t)

any-pass :
    (p : Row → Bool) (f : Edit) (id : Text) (t : Table) (r r' : Row)
    → find_row id t ≡ some r
    → f r ≡ some r'
    → p r' ≡ true
    → any p (pass f t) ≡ true
unfolding find_row pass
any-pass p f id [] r r' e k h = absurd (ground arith)
any-pass p f id (s ∷ t) r r' e k h = elim (Bool-cases (text_eq s.id id)) [
  | inl hit ↦ let same : s ≡ r = ground arith in ground (arith, ap f same)
  | inr miss ↦ let later = any-pass p f id t r r' (ground arith) k h in ground arith
]

-- A row of the batch is a row of the table.
has_id-ready_rows :
    (id : Text) (t : Table) (now limit : ℕ)
    → has_id id (ready_rows t now limit) ≡ true
    → has_id id t ≡ true
unfolding ready_rows
has_id-ready_rows id t now limit h = elim (Bool-cases (has_id id t)) [
  | inl there ↦ there
  | inr absent ↦ absurd (
      let missing =
        has_id-take id limit _ (has_id-order_by_id id _ ∙ has_id-keep id (is_ready now) t absent) in
      ground arith)
]

take-ne-nil : (n : ℕ) (t : Table) → 0 < n → length t ≢ 0 → take n t ≢ []
take-ne-nil zero t h k = absurd (omega arith)
take-ne-nil (suc n) [] h k = absurd (k refl)
take-ne-nil (suc n) (r ∷ t) h k = λ e. cc

ready_rows-ne-nil :
    (t : Table) (opts : ConsumerOptions) (now : ℕ)
    → is_batch_ready t opts now ≡ true
    → 0 < opts.max_batch_size
    → ready_rows t now opts.max_batch_size ≢ []
unfolding ready_rows is_batch_ready
ready_rows-ne-nil t opts now h k =
    take-ne-nil opts.max_batch_size (order_by_id (keep (is_ready now) t)) k
      (λ e. absurd (ground (arith, length-order_by_id (keep (is_ready now) t))))

claims-found :
    (lease : Text) (expires : ℕ) (id : Text) (rows : Table) (r s : Row)
    → r.id ≡ id
    → find_row id rows ≡ some s
    → claims lease expires rows r ≡ some (claim lease expires r)
unfolding edit_found
claims-found lease expires id rows r s e f = ground (arith, ap (λ i. find_row i rows) e)

-- The claim puts the lease on some row, if the batch has one.
any-claims :
    (lease : Text) (expires at : ℕ) (t : Table) (now limit : ℕ) (id : Text)
    → has_id id (ready_rows t now limit) ≡ true
    → at < expires
    → any (is_outstanding at) (pass (claims lease expires (ready_rows t now limit)) t) ≡ true
any-claims lease expires at t now limit id h k =
    let (s, found) = find_row_of_has_id id (ready_rows t now limit) h in
    let (r, there) = find_row_of_has_id id t (has_id-ready_rows id t now limit h) in
    any-pass (is_outstanding at) _ id t r (claim lease expires r) there
      (claims-found lease expires id (ready_rows t now limit) r s (find_row-id id t r there) found)
      (ground arith)

module _ (random_int : ℕ → ℕ) where
  lease_batch-nil :
      (s : Ids) (t : Table) (opts : ConsumerOptions) (now lease : ℕ)
      → ready_rows t now opts.max_batch_size ≡ []
      → (lease_batch random_int s t opts now lease).batch ≡ none
  unfolding lease_batch
  lease_batch-nil s t opts now lease e = rw (e, lease_batch)

  -- Where `isBatchReady` says so, and a batch may hold a message at all, `leaseBatch` gives a batch.
  pub lease_batch_of_ready :
      (s : Ids) (t : Table) (opts : ConsumerOptions) (now lease : ℕ)
      → is_batch_ready t opts now ≡ true
      → 0 < opts.max_batch_size
      → (b : LeasedBatch) × ((lease_batch random_int s t opts now lease).batch ≡ some b)
  unfolding lease_batch
  lease_batch_of_ready s t opts now lease h k = go (ready_rows t now opts.max_batch_size) refl
    where
      go :
          (rows : Table)
          → ready_rows t now opts.max_batch_size ≡ rows
          → (b : LeasedBatch) × ((lease_batch random_int s t opts now lease).batch ≡ some b)
      go [] e = absurd (ready_rows-ne-nil t opts now h k e)
      go (r ∷ rows) e =
          let lease_id = (new_message_id random_int s now).0 in
          (
            batch_of lease_id (r ∷ rows) (claim_all lease_id (now + lease) (r ∷ rows) t),
            rw (e, lease_batch),
          )

  -- In a table with distinct ids there is an outstanding lease from a batch until its lease runs
  -- out, which is what keeps the consumer from being put to sleep.
  pub lease_batch-outstanding :
      (s : Ids) (t : Table) (opts : ConsumerOptions) (now lease at : ℕ) (b : LeasedBatch)
      → HasDistinctIds t
      → (lease_batch random_int s t opts now lease).batch ≡ some b
      → at < now + lease
      → has_outstanding_lease (lease_batch random_int s t opts now lease).table at ≡ true
  unfolding has_outstanding_lease
  lease_batch-outstanding s t opts now lease at b d e h =
      rw (lease_batch-table random_int s t opts now lease d) (
        any-keep (is_outstanding at)
          (pass (claims lease_id (now + lease) (ready_rows t now opts.max_batch_size)) t)
          (go (ready_rows t now opts.max_batch_size) refl))
    where
      lease_id : Text
      lease_id = (new_message_id random_int s now).0

      go :
          (rows : Table)
          → ready_rows t now opts.max_batch_size ≡ rows
          → any
              (is_outstanding at)
              (pass (claims lease_id (now + lease) (ready_rows t now opts.max_batch_size)) t)
            ≡ true
      go [] q = absurd (ground (arith, lease_batch-nil s t opts now lease q))
      go (r ∷ rows) q =
          any-claims lease_id (now + lease) at t now opts.max_batch_size r.id
            (rw q (rw (text_eq_self r.id))) h
