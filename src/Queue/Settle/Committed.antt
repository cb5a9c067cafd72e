-- ===== src/Queue/Settle/Committed.antt =====
-- What `applyResult` and `expireLeases` promise, from the loops of OnePass.
use hobbyist.Base.{
  ℕ, suc, ◌+◌, ◌≡◌, refl, ap, ◌∙◌, Bool, Text, [], ◌∷◌, ◌++◌, Option, none, some, if◌then◌else◌,
  keep, length, arith, Bool-cases, inl, inr, ◌⊎◌,
}
use hobbyist.Queue.Message.{Row, ConsumerOptions, LeasedMessage, DeliveryResult}
use hobbyist.Queue.Table.{delete_where, Table, order_by_id, HasDistinctIds}
use hobbyist.Queue.Table.Edits.{pass, KeepsIds}
use hobbyist.Queue.Table.Select.{length-order_by_id, edit_if, edit_all-keep, edit_all-order_by_id}
use hobbyist.Queue.Settle.{
  Reply, done, Settling, Settled, settled, failed, Counts, Applied, apply_row, expire_row,
  settle_rows, start, commit, is_under, is_expired, apply_result, expire_leases, dead_letter,
  notify, message_of,
}
use hobbyist.Queue.Settle.OnePass.{
  Fate, acks, dies, requeues, after, retry_fate, apply_fate, count_acks, count_requeues, dead_of,
  notify_all, Obeys, Rounds, apply_row-Round, expire_row-Round, settle_rows-Rounds,
}

after-KeepsIds : (fate : Row → Fate) → KeepsIds (λ r. after (fate r))
after-KeepsIds fate s r r' e = kept (fate s) e
  where
    kept : (f : Fate) → after f r ≡ some r' → r'.id ≡ r.id
    kept acks q = cc
    kept dies q = cc
    kept (requeues at) q = ground arith

one_fate :
    (f : Fate) (r : Row) (t : Table) (fate : Row → Fate)
    → fate r ≡ f
    → count_acks fate t + count_requeues fate t + length (dead_of fate t) ≡ length t
    → count_acks fate (r ∷ t) + count_requeues fate (r ∷ t) + length (dead_of fate (r ∷ t))
      ≡ suc (length t)
one_fate acks r t fate e h = rw e (omega arith)
one_fate dies r t fate e h = rw e (omega arith)
one_fate (requeues at) r t fate e h = rw e (omega arith)

-- Every row has one fate.
count_fates :
    (fate : Row → Fate) (t : Table)
    → count_acks fate t + count_requeues fate t + length (dead_of fate t) ≡ length t
count_fates fate [] = refl
count_fates fate (r ∷ t) = one_fate (fate r) r t fate refl (count_fates fate t)

module _ {World : Type 0} (on_dead_letter : Option (World → LeasedMessage → Reply World)) where
  -- The rows `rows` that `p` selects in `t` have met their fates, each once: the table is `t` in one
  -- pass, the counts are those of the fates, and the callback has had every dead letter in turn.
  pub record IsCommitted (p : Row → Bool) (fate : Row → Fate) (rows t : Table) (w : World)
      (a : Applied World) (c : Counts) : Type 0 where
    pub table : a.table ≡ pass (edit_if p (λ r. after (fate r))) t
    pub acked : c.acked ≡ count_acks fate rows
    pub retried : c.retried ≡ count_requeues fate rows
    pub dead_lettered : c.dead_lettered ≡ dead_of fate rows
    pub world : notify_all on_dead_letter c.dead_lettered w ≡ done a.world
    pub counted : c.acked + c.retried + length c.dead_lettered ≡ length (keep p t)

  -- Rolled back, or committed.
  abbrev pub Commits : (Row → Bool) → (Row → Fate) → Table → Table → World → Applied World → Type 0
  Commits p fate rows t w a =
      ((a.outcome ≡ none) × (a.table ≡ t))
      ⊎ ((c : Counts) × (a.outcome ≡ some c) × IsCommitted p fate rows t w a c)

  commit-Commits :
      (p : Row → Bool) (fate : Row → Fate) (act : Row → Settling World → Settled World)
      (rows t : Table) (w : World)
      → Obeys on_dead_letter act fate
      → ((s : Settling World)
          → Rounds on_dead_letter fate rows (start t w) s
          → s.table ≡ pass (edit_if p (λ r. after (fate r))) t)
      → length rows ≡ length (keep p t)
      → Commits p fate rows t w (commit t (settle_rows act rows (start t w)))
  unfolding commit
  commit-Commits p fate act rows t w ob one_pass same = go (settle_rows act rows (start t w)) refl
    where
      go :
          (x : Settled World)
          → settle_rows act rows (start t w) ≡ x
          → Commits p fate rows t w (commit t x)
      go (failed v) e = inl (refl, refl)
      go (settled s) e =
          let r = settle_rows-Rounds on_dead_letter act fate ob rows (start t w) s e in
          let c : Counts = record {
            acked = s.acked;
            retried = s.retried;
            dead_lettered = s.dead_lettered;
          } in
          inr (
            c,
            refl,
            record {
              table = one_pass s r;
              acked = omega (arith, r.acked);
              retried = omega (arith, r.retried);
              dead_lettered = r.dead_lettered;
              world = rw r.dead_lettered r.world;
              counted = omega (
                arith,
                r.acked,
                r.retried,
                ap length r.dead_lettered,
                count_fates fate rows,
                same,
              );
            },
          )

  -- On a table with distinct ids `applyResult` commits one pass over the rows under the lease, in
  -- which each meets its fate once and the counts are those of the fates, or leaves the table as
  -- it was.
  pub apply_result-Commits :
      (t : Table) (w : World) (lease : Text) (result : DeliveryResult) (opts : ConsumerOptions)
      (now : ℕ)
      → HasDistinctIds t
      → Commits
          (is_under lease)
          (apply_fate result opts now)
          (order_by_id (keep (is_under lease) t))
          t
          w
          (apply_result on_dead_letter t w lease result opts now)
  unfolding apply_result
  apply_result-Commits t w lease result opts now d =
      commit-Commits (is_under lease) (apply_fate result opts now) _ _ t w
        (apply_row-Round on_dead_letter result opts now)
        (λ s r. r.table ∙ edit_all-order_by_id (is_under lease) _ t (after-KeepsIds _) d)
        (length-order_by_id (keep (is_under lease) t))

  -- On a table with distinct ids `expireLeases` commits one pass over the rows whose lease has
  -- run out, in which each meets its fate once and the counts are those of the fates, or leaves
  -- the table as it was.
  pub expire_leases-Commits :
      (t : Table) (w : World) (opts : ConsumerOptions) (now : ℕ)
      → HasDistinctIds t
      → Commits
          (is_expired now)
          (retry_fate opts now)
          (keep (is_expired now) t)
          t
          w
          (expire_leases on_dead_letter t w opts now)
  unfolding expire_leases
  expire_leases-Commits t w opts now d =
      commit-Commits (is_expired now) (retry_fate opts now) _ _ t w
        (expire_row-Round on_dead_letter opts now)
        (λ s r. r.table ∙ edit_all-keep (is_expired now) _ t (after-KeepsIds _) d) refl

  -- The callback never throws.
  abbrev pub NeverThrows : Type 0
  NeverThrows =
      (w : World) (m : LeasedMessage) → (w' : World) × (notify on_dead_letter w m ≡ done w')

  -- One round always goes on.
  abbrev GoesOn : (Row → Settling World → Settled World) → Type 0
  GoesOn act = (r : Row) (s : Settling World) → (s' : Settling World) × (act r s ≡ settled s')

  settle_rows_total :
      (act : Row → Settling World → Settled World)
      → GoesOn act
      → (rows : Table) (s : Settling World)
      → (s' : Settling World) × (settle_rows act rows s ≡ settled s')
  unfolding settle_rows
  settle_rows_total act g [] s = (s, refl)
  settle_rows_total act g (r ∷ rows) s =
      let (m, step) = g r s in
      let (s', rest) = settle_rows_total act g rows m in (s', rw (step, settle_rows) rest)

  dead_letter-GoesOn : NeverThrows → GoesOn (dead_letter on_dead_letter)
  unfolding dead_letter
  dead_letter-GoesOn never r s =
      let (w', fine) = never s.world (message_of r) in
      (
        record s {
          table = delete_where r.id s.table;
          world = w';
          dead_lettered = s.dead_lettered ++ message_of r ∷ [];
        },
        rw (fine, dead_letter),
      )

  if-GoesOn :
      (test : Row → Bool) (f g : Row → Settling World → Settled World)
      → GoesOn f
      → GoesOn g
      → GoesOn (λ r s. if test r then f r s else g r s)
  if-GoesOn test f g hf hg r s = elim (Bool-cases (test r)) [
    | inl passed ↦ rw passed (hf r s)
    | inr not_passed ↦ rw not_passed (hg r s)
  ]

  settled-GoesOn : (f : Row → Settling World → Settling World) → GoesOn (λ r s. settled (f r s))
  settled-GoesOn f r s = (f r s, refl)

  commit_total :
      (act : Row → Settling World → Settled World) (rows t : Table) (w : World)
      → GoesOn act
      → (c : Counts) × ((commit t (settle_rows act rows (start t w))).outcome ≡ some c)
  unfolding commit
  commit_total act rows t w g =
      let (s, e) = settle_rows_total act g rows (start t w) in
      (
        record { acked = s.acked; retried = s.retried; dead_lettered = s.dead_lettered },
        rw (e, commit),
      )

  -- With a callback that never throws `applyResult` always commits.
  pub apply_result_total :
      (t : Table) (w : World) (lease : Text) (result : DeliveryResult) (opts : ConsumerOptions)
      (now : ℕ)
      → NeverThrows
      → (c : Counts) × ((apply_result on_dead_letter t w lease result opts now).outcome ≡ some c)
  unfolding apply_result apply_row
  apply_result_total t w lease result opts now never = commit_total _ _ t w (
      if-GoesOn _ _ _ (if-GoesOn _ _ _ (dead_letter-GoesOn never) (settled-GoesOn _))
        (settled-GoesOn _))

  -- With a callback that never throws `expireLeases` always commits.
  pub expire_leases_total :
      (t : Table) (w : World) (opts : ConsumerOptions) (now : ℕ)
      → NeverThrows
      → (c : Counts) × ((expire_leases on_dead_letter t w opts now).outcome ≡ some c)
  unfolding expire_leases expire_row
  expire_leases_total t w opts now never =
      commit_total _ _ t w (if-GoesOn _ _ _ (dead_letter-GoesOn never) (settled-GoesOn _))
