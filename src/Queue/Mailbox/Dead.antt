-- ===== src/Queue/Mailbox/Dead.antt =====
-- The dead letters of a settlement, by the rows of the table, and the callback that got them.
use hobbyist.Base.{
  ℕ, ◌≡◌, refl, sym, ap, ◌∙◌, Bool, true, Text, text_eq, [], ◌∷◌, ◌++◌, All, All-mono, Option, none,
  some, any, if◌then◌else◌, keep, ltb, arith, Bool-cases, inl, inr,
}
use hobbyist.Queue.Message.{Row, ConsumerOptions, LeasedMessage, DeliveryResult}
use hobbyist.Queue.Table.{Table, find_row, HasDistinctIds, order_by_id}
use hobbyist.Queue.Table.Select.{
  find_row-keep, keep-HasDistinctIds, order_by_id-HasDistinctIds, find_row-order_by_id,
}
use hobbyist.Queue.Settle.{
  Reply, threw, Settling, Settled, settled, failed, apply_row, expire_row, dead_letter, settle_rows,
  commit, start, message_of, notify, is_under, is_expired, apply_result, expire_leases,
}
use hobbyist.Queue.Settle.OnePass.{
  Fate, acks, dies, requeues, apply_fate, retry_fate, dead_of, notify_all, Obeys, last_words,
  notify_all-append, is_acked, is_acked-is_retry, apply_row-Round, expire_row-Round,
}
use hobbyist.Queue.Settle.Committed.{Commits, apply_result-Commits, expire_leases-Commits}
use hobbyist.Queue.WellFormed.{fates-Keeps}
use hobbyist.Queue.Mailbox.{edited, IsDead, Settles, commits, rolls_back}
use hobbyist.Queue.Mailbox.Contents.{contents, find_row-pass, find_row-keep_iff}

selected :
    (p : Row → Bool) (o : Option Row) (r : Row)
    → edited (λ s. some s) (edited (λ s. if p s then some s else none) o) ≡ some r
    → (o ≡ some r) × (p r ≡ true)
selected p none r e = absurd (ground (arith, e))
selected p (some s) r e = elim (Bool-cases (p s)) [
  | inl chosen ↦
      let same : s ≡ r = ground (arith, chosen, e) in (ap some same, sym (ap p same) ∙ chosen)
  | inr left ↦ absurd (ground (arith, left, e))
]

dead_of-each :
    (fate : Row → Fate) (Q : Row → Type 0) (rows : Table)
    → All Q rows
    → All (λ m. (r : Row) × Q r × (fate r ≡ dies) × (m ≡ message_of r)) (dead_of fate rows)
dead_of-each fate Q [] h = tt
dead_of-each fate Q (r ∷ rows) (q, h) = go (fate r) refl (dead_of-each fate Q rows h)
  where
    go :
        (x : Fate)
        → fate r ≡ x
        → All (λ m. (r : Row) × Q r × (fate r ≡ dies) × (m ≡ message_of r)) (dead_of fate rows)
        → All
            (λ m. (r : Row) × Q r × (fate r ≡ dies) × (m ≡ message_of r))
            (last_words x r ++ dead_of fate rows)
    go acks e rest = rest
    go dies e rest = ((r, q, e, refl), rest)
    go (requeues at) e rest = rest

dead_of-all :
    (fate : Row → Fate) (rows : Table) (id : Text) (r : Row)
    → find_row id rows ≡ some r
    → fate r ≡ dies
    → any (λ m. text_eq m.id id) (dead_of fate rows) ≡ true
unfolding find_row
dead_of-all fate [] id r e d = absurd (ground (arith, e))
dead_of-all fate (s ∷ rows) id r e d = elim (Bool-cases (text_eq s.id id)) [
  | inl hit ↦ let same : s ≡ r = ground (arith, hit, e) in rw (ap fate same ∙ d, hit) refl
  | inr miss ↦ go (fate s) (dead_of-all fate rows id r (ground (arith, miss, e)) d)
]
  where
    go :
        (x : Fate)
        → any (λ m. text_eq m.id id) (dead_of fate rows) ≡ true
        → any (λ m. text_eq m.id id) (last_words x s ++ dead_of fate rows) ≡ true
    go acks rest = rest
    go dies rest = ground (arith, rest)
    go (requeues at) rest = rest

module _ (p : Row → Bool) (fate : Row → Fate) (rows t : Table) (distinct : HasDistinctIds rows)
    (found : (id : Text)
      → find_row id rows ≡ edited (λ r. if p r then some r else none) (find_row id t)) where
  rows-found : All (λ r. (find_row r.id t ≡ some r) × (p r ≡ true)) rows
  rows-found =
      All-mono
        (λ r e. selected p (find_row r.id t) r (
          ap (edited (λ s. some s)) (sym (found r.id))
          ∙ sym (find_row-keep_iff (λ s. true) r.id rows distinct)
          ∙ e))
        rows (find_row-keep (λ s. true) rows distinct)

  pub dead_of-IsDead : IsDead p fate (contents t) (dead_of fate rows)
  dead_of-IsDead = record {
    each =
        All-mono (λ m (r, q, d, e). (r, ap (λ n. find_row n.id t) e ∙ q.0, q.1, d, e))
          (dead_of fate rows) (dead_of-each fate _ rows rows-found);
    all_of = λ id r e q d.
        dead_of-all fate rows id r
          (found id ∙ ap (edited _) e ∙ ap (λ b. if b then some r else none) q) d;
  }

module _ {World : Type 0} (f : Option (World → LeasedMessage → Reply World)) where
  -- A round fails only for a row that dies, when the callback throws.
  abbrev pub FailsAtDead : (Row → Settling World → Settled World) → (Row → Fate) → Type 0
  FailsAtDead act fate =
      (r : Row) (s : Settling World) (w : World)
      → act r s ≡ failed w
      → (fate r ≡ dies) × (notify f s.world (message_of r) ≡ threw w)

  dead_letter-failed :
      (r : Row) (s : Settling World) (w : World)
      → dead_letter f r s ≡ failed w
      → notify f s.world (message_of r) ≡ threw w
  unfolding dead_letter
  dead_letter-failed r s w e = ground (arith, e)

  pub expire_row-FailsAtDead :
      (opts : ConsumerOptions) (now : ℕ) → FailsAtDead (expire_row f opts now) (retry_fate opts now)
  unfolding expire_row
  expire_row-FailsAtDead opts now r s w e = elim (Bool-cases (ltb opts.max_retries r.attempts)) [
    | inl spent ↦ (rw spent refl, dead_letter-failed r s w (ground (arith, spent, e)))
    | inr left ↦ absurd (ground (arith, left, e))
  ]

  pub apply_row-FailsAtDead :
      (result : DeliveryResult) (opts : ConsumerOptions) (now : ℕ)
      → FailsAtDead (apply_row f result opts now) (apply_fate result opts now)
  unfolding apply_row
  apply_row-FailsAtDead result opts now r s w e = elim (Bool-cases (is_acked result r.id)) [
    | inl acked ↦ absurd (ground (arith, e, is_acked-is_retry f result r.id, acked))
    | inr retried ↦ elim (Bool-cases (ltb opts.max_retries r.attempts)) [
      | inl spent ↦ (
        rw (retried, spent) refl,
        dead_letter-failed r s w
            (ground (arith, e, is_acked-is_retry f result r.id, retried, spent)),
      )
      | inr left ↦ absurd (ground (arith, e, is_acked-is_retry f result r.id, retried, left))
    ]
  ]

  settle_rows-failed :
      (act : Row → Settling World → Settled World) (fate : Row → Fate)
      → Obeys f act fate
      → FailsAtDead act fate
      → (rows : Table) (s : Settling World) (w : World) → settle_rows act rows s ≡ failed w
      → notify_all f (dead_of fate rows) s.world ≡ threw w
  unfolding settle_rows notify_all
  settle_rows-failed act fate ob fails [] s w e = absurd (ground (arith, e))
  settle_rows-failed act fate ob fails (r ∷ rows) s w e =
      go (act r s) refl (λ m. settle_rows-failed act fate ob fails rows m w)
    where
      go :
          (x : Settled World)
          → act r s ≡ x
          → ((m : Settling World)
              → settle_rows act rows m ≡ failed w
              → notify_all f (dead_of fate rows) m.world ≡ threw w)
          → notify_all f (dead_of fate (r ∷ rows)) s.world ≡ threw w
      go (failed v) q ih =
          let (d, t) = fails r s v q in rw (d, notify_all, t) (ap threw (ground (arith, q, e)))
      go (settled m) q ih =
          notify_all-append f (last_words (fate r) r) (dead_of fate rows) s.world m.world
            (ob r s m q).world
          ∙ ih m (ground (arith, q, e))

  -- What a transaction over the rows does to the mailbox.
  pub commit-Settles :
      (p : Row → Bool) (fate : Row → Fate) (act : Row → Settling World → Settled World)
      (rows t : Table) (w : World)
      → Obeys f act fate
      → FailsAtDead act fate
      → HasDistinctIds t
      → HasDistinctIds rows
      → ((id : Text)
          → find_row id rows ≡ edited (λ r. if p r then some r else none) (find_row id t))
      → Commits f p fate rows t w (commit t (settle_rows act rows (start t w)))
      → Settles f w p fate
          (contents t)
          (contents (commit t (settle_rows act rows (start t w))).table)
  unfolding commit
  commit-Settles p fate act rows t w ob fails d d' found =
      go (settle_rows act rows (start t w)) refl
    where
      dead : IsDead p fate (contents t) (dead_of fate rows)
      dead = dead_of-IsDead p fate rows t d' found

      go :
          (x : Settled World)
          → settle_rows act rows (start t w) ≡ x
          → Commits f p fate rows t w (commit t x)
          → Settles f w p fate (contents t) (contents (commit t x).table)
      go (failed v) e c =
          rolls_back (dead_of fate rows) v dead
            (settle_rows-failed act fate ob fails rows (start t w) v e) (λ id. refl)
      go (settled s) e (inl (rolled, same)) = absurd (ground (arith, rolled))
      go (settled s) e (inr (c, committed, made)) =
          commits (dead_of fate rows) s.world dead (rw (← made.dead_lettered) made.world)
            (λ id. rw made.table (find_row-pass _ id t (fates-Keeps p fate) d))

  pub apply_result-Settles :
      (t : Table) (w : World) (lease : Text) (result : DeliveryResult) (opts : ConsumerOptions)
      (now : ℕ)
      → HasDistinctIds t
      → Settles f w
          (is_under lease)
          (apply_fate result opts now)
          (contents t)
          (contents (apply_result f t w lease result opts now).table)
  unfolding apply_result
  apply_result-Settles t w lease result opts now d =
      let kept = keep-HasDistinctIds (is_under lease) t d in
      commit-Settles (is_under lease) (apply_fate result opts now) (apply_row f result opts now)
        (order_by_id (keep (is_under lease) t)) t w (apply_row-Round f result opts now)
        (apply_row-FailsAtDead result opts now) d (order_by_id-HasDistinctIds _ kept)
        (λ id. find_row-order_by_id id _ kept ∙ find_row-keep_iff (is_under lease) id t d)
        (apply_result-Commits f t w lease result opts now d)

  pub expire_leases-Settles :
      (t : Table) (w : World) (opts : ConsumerOptions) (now : ℕ)
      → HasDistinctIds t
      → Settles f w
          (is_expired now)
          (retry_fate opts now)
          (contents t)
          (contents (expire_leases f t w opts now).table)
  unfolding expire_leases
  expire_leases-Settles t w opts now d =
      commit-Settles (is_expired now) (retry_fate opts now) (expire_row f opts now)
        (keep (is_expired now) t) t w (expire_row-Round f opts now)
        (expire_row-FailsAtDead opts now) d (keep-HasDistinctIds (is_expired now) t d)
        (λ id. find_row-keep_iff (is_expired now) id t d) (expire_leases-Commits f t w opts now d)
