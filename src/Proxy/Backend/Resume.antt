-- ===== src/Proxy/Backend/Resume.antt =====
-- Scanning a stream in pieces and scanning it in one go come to the same.
use hobbyist.Base.{
  ℕ, zero, suc, ◌+◌, ◌≤◌, ◌<◌, ◌≡◌, refl, sym, subst, ap, ◌∙◌, true, false, ◌||◌, ◌&&◌, not, leb,
  ◌==◌, [], ◌∷◌, ◌++◌, Option, none, some, length, length-append, append_assoc, append-nil, take,
  drop, ltb, if◌then◌else◌, arith, Bool-cases, inl, inr,
}
use hobbyist.Proxy.Bytes.{
  Bytes, length-drop-lt, length-take-eq, take-append, drop-append, read_int32-append,
}
use hobbyist.Proxy.Cancel.{CancelKey}
use hobbyist.Proxy.Backend.{
  type_of, length_of, is_implausible, ready_for_query, Scan, stopped, forwarded, before, scan_loop,
  scan_backend_startup,
}

drop_one-append : (s t : Bytes) → 5 ≤ length s → drop 1 (s ++ t) ≡ drop 1 s ++ t
drop_one-append s t h = drop-append 1 s t (omega arith)

pub length_of-append : (s t : Bytes) → 5 ≤ length s → length_of (s ++ t) ≡ length_of s
length_of-append s t h =
    rw (drop_one-append s t h)
      (read_int32-append (drop 1 s) t (omega (arith, length-drop-lt 0 s (omega arith))))

pub type_of-append : (s t : Bytes) → 5 ≤ length s → type_of (s ++ t) ≡ type_of s
type_of-append [] t h = absurd (omega arith)
type_of-append (b ∷ s) t h = refl

-- Fuel beyond the size of the buffer changes nothing.
scan_loop_enough :
    (f g : ℕ) (key : CancelKey) (buf : Bytes)
    → length buf ≤ f
    → length buf ≤ g
    → scan_loop f key buf ≡ scan_loop g key buf
unfolding scan_loop
scan_loop_enough zero zero key buf p q = refl
scan_loop_enough zero (suc g) key buf p q = ground (arith, p)
scan_loop_enough (suc f) zero key buf p q = ground (arith, q)
scan_loop_enough (suc f) (suc g) key buf p q =
    elim (Bool-cases (ltb (length_of buf) (length buf))) [
      | inr beyond ↦ ground (arith, beyond)
      | inl within ↦
          let shorter : length (drop (suc (length_of buf)) buf) + suc (length_of buf) ≡ length buf =
            length-drop-lt (length_of buf) buf (ground (arith, within)) in
          ground (
            arith,
            scan_loop_enough f g key (drop (suc (length_of buf)) buf) (omega (arith, shorter))
                (omega (arith, shorter)),
          )
    ]

-- What two scans in a row come to.
abbrev pub join : Scan → Scan → Scan
join a b = record {
  forward = a.forward ++ b.forward;
  consumed = a.consumed + b.consumed;
  backend_key = elim b.backend_key [ none ↦ a.backend_key | some k ↦ some k ];
  is_done = b.is_done;
}

join-stopped : (s : Scan) → join (stopped false) s ≡ s
join-stopped s = keyed s.backend_key refl
  where
    keyed : (k : Option CancelKey) → s.backend_key ≡ k → join (stopped false) s ≡ s
    keyed none e = ground (arith, e)
    keyed (some k) e = ground (arith, e)

before-join :
    (key : CancelKey) (m : Bytes) (a b : Scan) → before key m (join a b) ≡ join (before key m a) b
before-join key m a b = keyed b.backend_key refl
  where
    keyed :
        (k : Option CancelKey)
        → b.backend_key ≡ k
        → before key m (join a b) ≡ join (before key m a) b
    keyed none e = ground (arith, e, append_assoc (forwarded key m) a.forward b.forward)
    keyed (some k) e = ground (arith, e, append_assoc (forwarded key m) a.forward b.forward)

drop-sum : (m n : ℕ) (s : Bytes) → drop (m + n) s ≡ drop n (drop m s)
drop-sum zero n s = let same : 0 + n ≡ n = omega arith in rw same refl
drop-sum (suc m) n [] = nothing (suc m + n) n
  where
    nothing : (k l : ℕ) → drop {A = ℕ} k [] ≡ drop l []
    nothing zero zero = refl
    nothing zero (suc l) = refl
    nothing (suc k) zero = refl
    nothing (suc k) (suc l) = refl
drop-sum (suc m) n (b ∷ s) =
    let same : suc m + n ≡ suc (m + n) = omega arith in rw same (drop-sum m n s)

-- A whole message in front of the buffer is in front of the longer buffer too.
scan_loop-append :
    (F : ℕ) (key : CancelKey) (buf more : Bytes)
    → 5 ≤ length buf
    → is_implausible (length_of buf) ≡ false
    → length_of buf < length buf
    → scan_loop (suc F) key (buf ++ more)
      ≡ before key (take (suc (length_of buf)) buf) (
          if type_of buf == ready_for_query
          then stopped true
          else scan_loop F key (drop (suc (length_of buf)) buf ++ more))
unfolding scan_loop
scan_loop-append F key buf more five plausible within = ground (
  arith,
  plausible,
  length_of-append buf more five,
  type_of-append buf more five,
  length-append buf more,
  take-append (suc (length_of buf)) buf more within,
  drop-append (suc (length_of buf)) buf more within,
)

scan_loop_message :
    (f : ℕ) (key : CancelKey) (buf : Bytes)
    → 5 ≤ length buf
    → is_implausible (length_of buf) ≡ false
    → length_of buf < length buf
    → scan_loop (suc f) key buf
      ≡ before key (take (suc (length_of buf)) buf) (
          if type_of buf == ready_for_query
          then stopped true
          else scan_loop f key (drop (suc (length_of buf)) buf))
unfolding scan_loop
scan_loop_message f key buf five plausible within = ground (arith, plausible)

-- Too few bytes for a header, or for the message that the header announces.
scan_loop_waits :
    (f : ℕ) (key : CancelKey) (buf : Bytes)
    → (ltb (length buf) 5
        || (not (is_implausible (length_of buf)) && leb (length buf) (length_of buf)))
      ≡ true
    → scan_loop (suc f) key buf ≡ stopped false
unfolding scan_loop
scan_loop_waits f key buf e = ground (arith, e)

scan_loop_broken :
    (f : ℕ) (key : CancelKey) (buf more : Bytes)
    → 5 ≤ length buf
    → is_implausible (length_of buf) ≡ true
    → scan_loop (suc f) key (buf ++ more) ≡ stopped true
unfolding scan_loop
scan_loop_broken f key buf more five bad =
    ground (arith, bad, length_of-append buf more five, length-append buf more)

length-drop-le : (n : ℕ) (s : Bytes) → length (drop n s) ≤ length s
length-drop-le zero s = omega arith
length-drop-le (suc n) [] = omega arith
length-drop-le (suc n) (b ∷ s) = omega (arith, length-drop-le n s)

abbrev Resumes : ℕ → CancelKey → Bytes → Bytes → Scan → Type 0
Resumes F key buf more first = scan_loop F key (buf ++ more) ≡ (
    if first.is_done then first else join first (scan_loop F key (drop first.consumed buf ++ more)))

-- Both scans take the message in front; then the rest resumes.
message-Resumes :
    (F : ℕ) (key : CancelKey) (buf more : Bytes) (later : Scan)
    → 5 ≤ length buf
    → is_implausible (length_of buf) ≡ false
    → length_of buf < length buf
    → length buf + length more ≤ suc F
    → (type_of buf == ready_for_query) ≡ false
    → Resumes F key (drop (suc (length_of buf)) buf) more later
    → Resumes (suc F) key buf more (before key (take (suc (length_of buf)) buf) later)
message-Resumes F key buf more later five plausible within room going ih =
    elim (Bool-cases later.is_done) [
      | inl over ↦
          rw (scan_loop-append F key buf more five plausible within, going, over)
            (ap (before key (take (suc (length_of buf)) buf)) (ground (arith, ih, over)))
      | inr goes_on ↦
          rw (scan_loop-append F key buf more five plausible within, going, goes_on)
            (ap (before key (take (suc (length_of buf)) buf)) (ground (arith, ih, goes_on))
              ∙ before-join key (take (suc (length_of buf)) buf) later
                  (scan_loop F key (drop later.consumed (drop (suc (length_of buf)) buf) ++ more))
              ∙ ap (join (before key (take (suc (length_of buf)) buf) later)) same)
    ]
  where
    rest : Bytes
    rest = drop (suc (length_of buf)) buf

    short : length (drop later.consumed rest ++ more) ≤ F
    short = omega (
      arith,
      length-append (drop later.consumed rest) more,
      length-drop-le later.consumed rest,
      length-drop-lt (length_of buf) buf within,
    )

    same :
        scan_loop F key (drop later.consumed rest ++ more)
        ≡ scan_loop
            (suc F)
            key
            (drop (length (take (suc (length_of buf)) buf) + later.consumed) buf ++ more)
    same =
        rw
          (
            length-take-eq (suc (length_of buf)) buf within,
            drop-sum (suc (length_of buf)) later.consumed buf,
          )
          (scan_loop_enough F (suc F) key (drop later.consumed rest ++ more) short
            (omega (arith, short)))

scan_loop_resume :
    (f F : ℕ) (key : CancelKey) (buf more : Bytes)
    → length buf ≤ f
    → length buf + length more ≤ F
    → Resumes F key buf more (scan_loop f key buf)
scan_loop_resume zero F key [] more p q =
    unfold scan_loop in (sym (join-stopped (scan_loop F key more)))
scan_loop_resume zero F key (b ∷ buf) more p q = absurd (omega arith)
scan_loop_resume (suc f) F key buf more p q =
    elim (Bool-cases (
      ltb (length buf) 5
      || (not (is_implausible (length_of buf)) && leb (length buf) (length_of buf)))) [
        | inl waits ↦
            subst (Resumes F key buf more) (sym (scan_loop_waits f key buf waits))
              (sym (join-stopped (scan_loop F key (buf ++ more))))
        | inr there ↦ elim (Bool-cases (is_implausible (length_of buf))) [
          | inl bad ↦ broken F q bad (ground (arith, there))
          | inr plausible ↦
              message F q plausible (ground (arith, there)) (ground (arith, there, plausible))
                (scan_loop_resume f)
        ]
      ]
  where
    broken :
        (G : ℕ)
        → length buf + length more ≤ G
        → is_implausible (length_of buf) ≡ true
        → 5 ≤ length buf
        → Resumes G key buf more (scan_loop (suc f) key buf)
    broken zero r bad five = absurd (omega arith)
    broken (suc G) r bad five =
        let first : scan_loop (suc f) key buf ≡ stopped true =
          rw (append-nil buf) at (scan_loop_broken f key buf [] five bad) in
        subst (Resumes (suc G) key buf more) (sym first) (scan_loop_broken G key buf more five bad)

    message :
        (G : ℕ)
        → length buf + length more ≤ G
        → is_implausible (length_of buf) ≡ false
        → 5 ≤ length buf
        → length_of buf < length buf
        → ((H : ℕ) (k : CancelKey) (s t : Bytes)
            → length s ≤ f
            → length s + length t ≤ H
            → Resumes H k s t (scan_loop f k s))
        → Resumes G key buf more (scan_loop (suc f) key buf)
    message zero r plausible five within ih = absurd (omega arith)
    message (suc G) r plausible five within ih =
        elim (Bool-cases (type_of buf == ready_for_query)) [
          | inl ends ↦
              let step : scan_loop (suc f) key buf
                  ≡ before key (take (suc (length_of buf)) buf) (stopped true) =
                rw (scan_loop_message f key buf five plausible within, ends) refl in
              subst (Resumes (suc G) key buf more) (sym step)
                (rw (scan_loop-append G key buf more five plausible within, ends) refl)
          | inr going ↦
              let step : scan_loop (suc f) key buf
                  ≡ before key (take (suc (length_of buf)) buf)
                      (scan_loop f key (drop (suc (length_of buf)) buf)) =
                rw (scan_loop_message f key buf five plausible within, going) refl in
              subst (Resumes (suc G) key buf more) (sym step) (
                message-Resumes G key buf more (scan_loop f key (drop (suc (length_of buf)) buf))
                  five plausible within r going
                  (ih G key (drop (suc (length_of buf)) buf) more
                    (omega (arith, length-drop-lt (length_of buf) buf within, p))
                    (omega (arith, length-drop-lt (length_of buf) buf within, r))))
        ]

-- A stream that is scanned in two pieces comes to what one scan of the whole comes to: where the
-- first scan is not done, what it left over is scanned with the bytes that follow, and the two are
-- joined; where it is done, the bytes that follow do not matter.
pub scan_backend_startup_resume :
    (buf more : Bytes) (key : CancelKey)
    → let first = scan_backend_startup buf key in
      scan_backend_startup (buf ++ more) key ≡ (
        if first.is_done
        then first
        else join first (scan_backend_startup (drop first.consumed buf ++ more) key))
unfolding scan_backend_startup
scan_backend_startup_resume buf more key =
    scan_loop_resume (length buf) (length (buf ++ more)) key buf more (omega arith)
      (omega (arith, length-append buf more))
    ∙ ap (λ s. if first.is_done then first else join first s)
        (scan_loop_enough (length (buf ++ more)) (length left) key left
          (omega (
            arith,
            length-append buf more,
            length-append (drop first.consumed buf) more,
            length-drop-le first.consumed buf,
          ))
          (omega arith))
  where
    first : Scan
    first = scan_loop (length buf) key buf

    left : Bytes
    left = drop first.consumed buf ++ more
