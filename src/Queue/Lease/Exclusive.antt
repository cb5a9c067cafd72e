-- ===== src/Queue/Lease/Exclusive.antt =====
-- What `leaseBatch` claims, and that nothing else gets it while the lease stands.
use hobbyist.Base.{
  ℕ, zero, suc, ◌+◌, ◌≡◌, refl, sym, ap, ◌∙◌, true, false, Text, text_eq, text_eq_iff, [], ◌∷◌,
  Option, none, some, is_some, keep, All, take, map, arith, Bool-cases, inl, inr,
}
use hobbyist.Queue.Ids.{Ids, new_message_id}
use hobbyist.Queue.Message.{Row, ConsumerOptions, LeasedBatch, mentions}
use hobbyist.Queue.Table.{Table, has_id, find_row, update_where, HasDistinctIds}
use hobbyist.Queue.Table.Edits.{
  Edit, pass, edit_all, edit_found, KeepsIds, update_where-pass, edit_all-pass,
}
use hobbyist.Queue.Table.Select.{
  has_id-order_by_id, order_by_id-HasDistinctIds, keep-HasDistinctIds,
}
use hobbyist.Queue.Lease.{is_ready, ready_rows, claim, claim_all, delivered, batch_of, lease_batch}

-- The claim of every row of the batch, as an edit.
abbrev pub claims : Text → ℕ → Table → Edit
claims lease expires = edit_found (λ s r. some (claim lease expires r))

claim-KeepsIds : (lease : Text) (expires : ℕ) → KeepsIds (λ s r. some (claim lease expires r))
claim-KeepsIds lease expires s r r' e = ground arith

claim_all-edit_all :
    (lease : Text) (expires : ℕ) (rows t : Table)
    → claim_all lease expires rows t ≡ edit_all (λ s r. some (claim lease expires r)) rows t
unfolding claim_all edit_all
claim_all-edit_all lease expires [] t = refl
claim_all-edit_all lease expires (r ∷ rows) t =
    claim_all-edit_all lease expires rows (update_where r.id (claim lease expires) t)
    ∙ ap (edit_all _ rows) (update_where-pass r.id (claim lease expires) t)

pub has_id-take :
    (id : Text) (n : ℕ) (t : Table) → has_id id t ≡ false → has_id id (take n t) ≡ false
has_id-take id zero t h = refl
has_id-take id (suc n) [] h = refl
has_id-take id (suc n) (r ∷ t) h = ground (arith, has_id-take id n t)

take-HasDistinctIds : (n : ℕ) (t : Table) → HasDistinctIds t → HasDistinctIds (take n t)
take-HasDistinctIds zero t d = tt
take-HasDistinctIds (suc n) [] d = tt
take-HasDistinctIds (suc n) (r ∷ t) (h, d) = (has_id-take r.id n t h, take-HasDistinctIds n t d)

pub ready_rows-HasDistinctIds :
    (t : Table) (now limit : ℕ) → HasDistinctIds t → HasDistinctIds (ready_rows t now limit)
unfolding ready_rows
ready_rows-HasDistinctIds t now limit d =
    take-HasDistinctIds limit _
      (order_by_id-HasDistinctIds _ (keep-HasDistinctIds (is_ready now) t d))

claim_all-pass :
    (lease : Text) (expires : ℕ) (t : Table) (now limit : ℕ)
    → HasDistinctIds t
    → claim_all lease expires (ready_rows t now limit) t
      ≡ pass (claims lease expires (ready_rows t now limit)) t
claim_all-pass lease expires t now limit d =
    claim_all-edit_all lease expires (ready_rows t now limit) t
    ∙ edit_all-pass _ _ t (claim-KeepsIds lease expires) (ready_rows-HasDistinctIds t now limit d)

-- A row with this id is under a lease.
abbrev IsTaken : Text → Row → Type 0
IsTaken id r = text_eq r.id id ≡ true → is_some r.lease_id ≡ true

pub find_row_of_has_id :
    (id : Text) (t : Table) → has_id id t ≡ true → (r : Row) × (find_row id t ≡ some r)
unfolding find_row
find_row_of_has_id id [] h = absurd (ground arith)
find_row_of_has_id id (r ∷ t) h = elim (Bool-cases (text_eq r.id id)) [
  | inl hit ↦ (r, rw hit)
  | inr miss ↦ rw miss (find_row_of_has_id id t (ground arith))
]

claimed-IsTaken :
    (lease : Text) (expires : ℕ) (id : Text) (rows t : Table)
    → has_id id rows ≡ true
    → All (IsTaken id) (pass (claims lease expires rows) t)
unfolding pass edit_found
claimed-IsTaken lease expires id rows [] h = tt
claimed-IsTaken lease expires id rows (r ∷ t) h =
    go (find_row r.id rows) refl (claimed-IsTaken lease expires id rows t h)
  where
    go :
        (o : Option Row)
        → find_row r.id rows ≡ o
        → All (IsTaken id) (pass (claims lease expires rows) t)
        → All (IsTaken id) (pass (claims lease expires rows) (r ∷ t))
    go none e rest = rw (e, pass, edit_found) (other, rest)
      where
        other : IsTaken id r
        other same =
            let (s, found) = find_row_of_has_id id rows h in
            absurd (ground (arith, ap (λ i. find_row i rows) ((text_eq_iff _ _).0 same)))
    go (some s) e rest = rw (e, pass, edit_found) ((λ _. refl), rest)

taken-not_ready :
    (id : Text) (at : ℕ) (t : Table) → All (IsTaken id) t → has_id id (keep (is_ready at) t) ≡ false
taken-not_ready id at [] h = refl
taken-not_ready id at (r ∷ t) (p, h) = elim (Bool-cases (text_eq r.id id)) [
  | inl this ↦ let taken = p this in ground (arith, taken-not_ready id at t h)
  | inr other ↦ ground (arith, taken-not_ready id at t h)
]

mentions-delivered : (id : Text) (rows : Table) → mentions id (map delivered rows) ≡ has_id id rows
mentions-delivered id [] = refl
mentions-delivered id (r ∷ rows) = ground (arith, mentions-delivered id rows)

module _ (random_int : ℕ → ℕ) where
  -- Without a batch nothing changes; with one, the table is the claim of the ready rows in one pass.
  pub lease_batch-table :
      (s : Ids) (t : Table) (opts : ConsumerOptions) (now lease : ℕ)
      → HasDistinctIds t
      → let rows = ready_rows t now opts.max_batch_size in
        (lease_batch random_int s t opts now lease).table
        ≡ pass (claims (new_message_id random_int s now).0 (now + lease) rows) t
  unfolding lease_batch claim_all
  lease_batch-table s t opts now lease d =
      go (ready_rows t now opts.max_batch_size) refl (
        claim_all-pass (new_message_id random_int s now).0 (now + lease) t now opts.max_batch_size
          d)
    where
      go :
          (rows : Table)
          → ready_rows t now opts.max_batch_size ≡ rows
          → claim_all
              (new_message_id random_int s now).0
              (now + lease)
              (ready_rows t now opts.max_batch_size)
              t
            ≡ pass
                (claims
                  (new_message_id random_int s now).0
                  (now + lease)
                  (ready_rows t now opts.max_batch_size))
                t
          → (lease_batch random_int s t opts now lease).table
            ≡ pass
                (claims
                  (new_message_id random_int s now).0
                  (now + lease)
                  (ready_rows t now opts.max_batch_size))
                t
      go [] e h = rw (e, lease_batch) (rw (e, claim_all) at h)
      go (r ∷ rows) e h = rw (e, lease_batch) (rw e at h)

  later_rows :
      (s : Ids) (t : Table) (opts : ConsumerOptions) (now lease : ℕ) (id : Text) (at limit : ℕ)
      → HasDistinctIds t
      → has_id id (ready_rows t now opts.max_batch_size) ≡ true
      → has_id id (ready_rows (lease_batch random_int s t opts now lease).table at limit) ≡ false
  unfolding ready_rows
  later_rows s t opts now lease id at limit d h = rw (lease_batch-table s t opts now lease d) (
      has_id-take id limit _ (
        has_id-order_by_id id _
        ∙ taken-not_ready id at _ (claimed-IsTaken _ (now + lease) id _ t h)))

  -- A batch holds the ready rows, as many as fit, with one more attempt each.
  lease_batch-messages :
      (s : Ids) (t : Table) (opts : ConsumerOptions) (now lease : ℕ) (b : LeasedBatch)
      → (lease_batch random_int s t opts now lease).batch ≡ some b
      → b.messages ≡ map delivered (ready_rows t now opts.max_batch_size)
  unfolding lease_batch batch_of
  lease_batch-messages s t opts now lease b e = go (ready_rows t now opts.max_batch_size) refl
    where
      go :
          (rows : Table)
          → ready_rows t now opts.max_batch_size ≡ rows
          → b.messages ≡ map delivered (ready_rows t now opts.max_batch_size)
      go [] q = absurd (ground arith)
      go (r ∷ rows) q = rw q (ground arith)

  -- In a table with distinct ids, a message that one batch holds is in no batch leased from the
  -- table that this leaves, at whatever time and with whatever options and state of the ids.
  pub lease_batch_exclusive :
      (s s' : Ids) (t : Table) (opts opts' : ConsumerOptions) (now at lease lease' : ℕ)
      (b b' : LeasedBatch) (id : Text)
      → HasDistinctIds t
      → (lease_batch random_int s t opts now lease).batch ≡ some b
      → (lease_batch random_int s'
          (lease_batch random_int s t opts now lease).table
          opts'
          at
          lease').batch
        ≡ some b'
      → mentions id b.messages ≡ true
      → mentions id b'.messages ≡ false
  lease_batch_exclusive s s' t opts opts' now at lease lease' b b' id d e e' h =
      rw (lease_batch-messages s' _ opts' at lease' b' e') (
        mentions-delivered id _
        ∙ later_rows s t opts now lease id at opts'.max_batch_size d
            (sym (mentions-delivered id _) ∙ rw (lease_batch-messages s t opts now lease b e) at h))
