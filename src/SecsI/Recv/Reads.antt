-- ===== src/SecsI/Recv/Reads.antt =====
-- What the parts of recv_secsI() have read from the line when they go on.
use sc_open.Prelude.{
  ℕ, zero, suc, ◌+◌, ◌≤◌, ◌≡◌, sym, ap, ◌∙◌, Bool, true, false, ◌||◌, ◌&&◌, Option, none, some,
  List, [], ◌∷◌, ◌++◌, length, replicate, ◌==◌, ltb, arith, append_assoc, Bool-cases, inl, inr,
}
use sc_open.Secs.{enq, secs_calc_checksum}
use sc_open.Line.{
  Event, got, failed, expired, pause, Line, Exit, value, ret, jump, blocked, M, ◌>>◌, catch_exit,
  start_timer, stop_timer, read_events, my_readc, my_writec, write_or, catch,
}
use sc_open.Line.Laws.{>>=-eq-value}
use sc_open.SecsI.Recv.{
  timed_read, or_return, wait_enq, size_loop, read_size, check_size, read_block, read_check,
  compare_checksum, refuse, completion,
}

-- The bytes that the line still delivers.
abbrev pub chars : List Event → List ℕ
chars [] = []
chars (got c ∷ es) = c ∷ chars es
chars (failed ∷ es) = chars es
chars (expired k ∷ es) = chars es
chars (pause ∷ es) = chars es

-- Exactly these bytes were read, and nothing was written.
abbrev pub Reads : List ℕ → Line → Line → Type 0
Reads cs l l' = (chars l.events ≡ cs ++ chars l'.events) × (l'.sent ≡ l.sent)

Reads-append : (cs ds : List ℕ) (l m n : Line) → Reads cs l m → Reads ds m n → Reads (cs ++ ds) l n
Reads-append cs ds l m n (p, q) (r, s) =
    (p ∙ ap (◌++◌ cs) r ∙ sym (append_assoc cs ds (chars n.events)), s ∙ q)

pub read_events-Reads :
    (ts : List ℕ) (es : List Event) (c : ℕ)
    → (read_events ts es).0 ≡ value (some c)
    → chars es ≡ c ∷ chars (read_events ts es).1
unfolding read_events
read_events-Reads ts [] c h = cc
read_events-Reads ts (got d ∷ es) c h = ground arith
read_events-Reads ts (failed ∷ es) c h = cc
read_events-Reads ts (expired k ∷ es) c h = ground (arith, read_events-Reads ts es c)
read_events-Reads ts (pause ∷ es) c h = read_events-Reads ts es c h

pub timed_read-Reads :
    (k c : ℕ) (l l' : Line) → timed_read k l ≡ (value (some c), l') → Reads (c ∷ []) l l'
unfolding timed_read start_timer stop_timer my_readc
timed_read-Reads k c l l' h =
    ground (arith, read_events-Reads (start_timer k l).1.timers l.events c)

pub refuse_fails : {A : Type 0} (l l' : Line) (a : A) → ¬ (refuse l ≡ (value a, l'))
unfolding refuse write_or my_writec
refuse_fails l l' a h = ground arith

pub completion-refuse_fails :
    {A : Type 0} (l l' : Line) (a : A) → ¬ ((completion >> refuse) l ≡ (value a, l'))
completion-refuse_fails l l' a h =
    let (u, m, e, r) = >>=-eq-value completion (λ _. refuse) l l' h in refuse_fails m l' a r

-- A body that is guarded by a handler which never succeeds has succeeded itself.
pub catch-eq-value :
    {A : Type 0} (k : ℕ) (body handler : M A) (l l' : Line) (a : A)
    → ((m : Line) → ¬ (handler m ≡ (value a, l')))
    → catch k body handler l ≡ (value a, l')
    → body l ≡ (value a, l')
unfolding catch
catch-eq-value {A} k body handler l l' a never h = go (body l) h
  where
    go : (r : Exit A × Line) → catch_exit r.0 r.1 k handler ≡ (value a, l') → r ≡ (value a, l')
    go (value b, m) e = e
    go (ret c, m) e = cc
    go (jump j, m) e = elim (Bool-cases (j == k)) [
      | inl p ↦ absurd (never m (ground (arith, p, e)))
      | inr p ↦ absurd (ground (arith, p, e))
    ]
    go (blocked, m) e = cc

-- `if (my_readc(...)) return code;` has gone on only with a byte.
pub or_return-eq-value :
    (code : ℕ) (c : Option ℕ) (l l' : Line) (b : ℕ)
    → or_return code c l ≡ (value b, l')
    → (c ≡ some b) × (l ≡ l')
or_return-eq-value code none l l' b h = absurd (ground arith)
or_return-eq-value code (some c) l l' b h = ground arith

-- The reads under a timer that return a byte or fail.
guarded-Reads :
    (k b : ℕ) (handler : M (Option ℕ)) (c : Option ℕ) (l m l' : Line)
    → ((c : Option ℕ) (n n' : Line) → ¬ (handler n ≡ (value c, n')))
    → catch k (timed_read k) handler l ≡ (value c, m)
    → or_return 1 c m ≡ (value b, l')
    → Reads (b ∷ []) l l'
guarded-Reads k b handler c l m l' never e r =
    let (c_is, m_is) = or_return-eq-value 1 c m l' b r in
    timed_read-Reads k b l l' (
      catch-eq-value k (timed_read k) handler l l' (some b) (λ n. never (some b) n l')
        (e ∙ ap (λ x. (value x, m)) c_is ∙ ap (λ x. (value (some b), x)) m_is))

pub read_check-Reads : (b : ℕ) (l l' : Line) → read_check l ≡ (value b, l') → Reads (b ∷ []) l l'
unfolding read_check
read_check-Reads b l l' h =
    let (c, m, e, r) =
      >>=-eq-value (catch 1 (timed_read 1) (completion >> refuse)) (λ x. or_return 1 x) l l' h in
    guarded-Reads 1 b (completion >> refuse) c l m l' (λ x n n'. completion-refuse_fails n n' x) e r

pub read_block-Reads :
    (n : ℕ) (block : List ℕ) (l l' : Line)
    → read_block n l ≡ (value block, l')
    → Reads block l l' × (length block ≡ n)
unfolding read_block
read_block-Reads zero block l l' h = ground arith
read_block-Reads (suc n) block l l' h =
    let (c, m, e, r) = >>=-eq-value (catch 1 (timed_read 1) refuse) _ l l' h in
    let (b, m2, e2, r2) = >>=-eq-value (or_return 1 c) _ m l' r in
    let (rest, m3, e3, r3) = >>=-eq-value (read_block n) _ m2 l' r2 in
    ground (
      arith,
      r3,
      guarded-Reads 1 b refuse c l m m2 (λ x k k'. refuse_fails k k' x) e e2,
      read_block-Reads n rest m2 m3 e3,
    )

-- The size byte comes behind any number of repeated ENQs.
size_loop-Reads :
    (fuel size : ℕ) (l l' : Line)
    → size_loop fuel l ≡ (value size, l')
    → (n : ℕ) × Reads (replicate n enq ++ size ∷ []) l l'
unfolding size_loop
size_loop-Reads zero size l l' h = absurd (ground arith)
size_loop-Reads (suc fuel) size l l' h =
    let (c, m, e, r) = >>=-eq-value (timed_read 2) _ l l' h in
    let (b, m2, e2, r2) = >>=-eq-value (or_return 1 c) _ m l' r in
    let (c_is, m_is) = or_return-eq-value 1 c m m2 b e2 in
    let one : Reads (b ∷ []) l m2 =
      timed_read-Reads 2 b l m2
        (e ∙ ap (λ x. (value x, m)) c_is ∙ ap (λ x. (value (some b), x)) m_is) in
    elim (Bool-cases (b == enq)) [
      | inl p ↦
          let (n, more) = size_loop-Reads fuel size m2 l' (rw p at r2) in
          (suc n, ground (arith, p, one, more))
      | inr p ↦ (0, ground (arith, p, one, r2))
    ]

pub read_size-Reads :
    (size : ℕ) (l l' : Line)
    → read_size l ≡ (value size, l')
    → (n : ℕ) × Reads (replicate n enq ++ size ∷ []) l l'
unfolding read_size
read_size-Reads size l l' h = size_loop-Reads (length l.events + 1) size l l' (
    catch-eq-value 2 (size_loop (length l.events + 1)) refuse l l' size
      (λ m. refuse_fails m l' size) h)

pub check_size-eq-value :
    (size : ℕ) (l l' : Line) {u : Unit {0}}
    → check_size size l ≡ (value u, l')
    → (10 ≤ size) × (size ≤ 254) × (l ≡ l')
unfolding check_size
check_size-eq-value size l l' {u} h = elim (Bool-cases (ltb size 10 || ltb 254 size)) [
  | inl p ↦ absurd (completion-refuse_fails l l' u (rw p at h))
  | inr p ↦ ground (arith, p, h)
]

pub compare_checksum-eq-value :
    (block : List ℕ) (c0 c1 : ℕ) (l l' : Line) {u : Unit {0}}
    → compare_checksum block c0 c1 l ≡ (value u, l')
    → (c0 ≡ (secs_calc_checksum block).0) × (c1 ≡ (secs_calc_checksum block).1) × (l ≡ l')
unfolding compare_checksum
compare_checksum-eq-value block c0 c1 l l' {u} h =
    elim (Bool-cases
      ((c0 == (secs_calc_checksum block).0) && (c1 == (secs_calc_checksum block).1))) [
        | inl p ↦ ground (arith, p, h)
        | inr p ↦ absurd (completion-refuse_fails l l' u (rw p at h))
      ]

pub write_or-eq-value :
    (code b : ℕ) (l l' : Line) {u : Unit {0}}
    → write_or code b l ≡ (value u, l')
    → (l'.sent ≡ l.sent ++ b ∷ []) × (l'.events ≡ l.events)
unfolding write_or my_writec
write_or-eq-value code b l l' h = ground arith

-- The bytes that open a transfer: the ENQ, unless the caller has read it.
abbrev pub opening : Bool → List ℕ
opening true = []
opening false = enq ∷ []

pub wait_enq-Reads :
    (flag : Bool) (l l' : Line) {u : Unit {0}}
    → wait_enq flag l ≡ (value u, l')
    → Reads (opening flag) l l'
unfolding wait_enq my_readc
wait_enq-Reads true l l' h = ground arith
wait_enq-Reads false l l' h = ground (arith, read_events-Reads l.timers l.events enq)
