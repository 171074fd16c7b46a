-- ===== src/ProtoTimers/Expiry.antt =====
-- Which protocol timer an alarm reports, and when the next alarm is set.
use mathlib.Core.Option.{some-ne-none}
use sc_open.Prelude.{
  ℕ, zero, suc, ◌+◌, ◌-◌, ◌≤◌, ◌<◌, max, ◌≡◌, refl, sym, ap, ◌∙◌, subst, true, false, Option, none,
  some, ◌⊎◌, inl, inr, List, [], ◌∷◌, set, get_elem?, get_or, All, ltb, if◌then◌else◌, arith,
  Bool-cases,
}
use sc_open.ProtoTimers.{
  Timer, idle_timer, min_loop, calc_min_time, is_due, due_loop, fire, timeout_handler,
}

abbrev pub Due : ℕ → Timer → Type 0
Due now t = (t.running ≡ true) × (t.end ≤ now)

-- What the loop has found: the timer it was given, and then every due timer is less overdue than
-- `most`; or a due timer that no due timer is more overdue than.
abbrev pub Found : (now i most : ℕ) → Option ℕ → List Timer → Option ℕ → Type 0
Found now i most idx ts r =
    ((r ≡ idx) × All (λ u. Due now u → now < most + u.end) ts)
    ⊎ ((j : ℕ) × (t : Timer) × (r ≡ some (i + j))
        × (get_elem? ts j ≡ some t)
        × Due now t
        × (most + t.end ≤ now)
        × All (λ u. Due now u → t.end ≤ u.end) ts)

-- A timer that the loop takes, and one that it passes over.
take_due : (now most : ℕ) (t : Timer) → is_due now most t ≡ true → Due now t × (most + t.end ≤ now)
unfolding is_due
take_due now most t h = ground arith

pass_due : (now most : ℕ) (t : Timer) → is_due now most t ≡ false → Due now t → now < most + t.end
unfolding is_due
pass_due now most t h d = ground arith

weaken :
    (now a b : ℕ) (ts : List Timer)
    → a ≤ b
    → All (λ u. Due now u → now < a + u.end) ts
    → All (λ u. Due now u → now < b + u.end) ts
weaken now a b [] h all = tt
weaken now a b (t ∷ ts) h all = ((λ d. let p = all.0 d in omega arith), weaken now a b ts h all.1)

later :
    (now : ℕ) (t : Timer) (ts : List Timer)
    → t.end ≤ now
    → All (λ u. Due now u → now < now - t.end + u.end) ts
    → All (λ u. Due now u → t.end ≤ u.end) ts
later now t [] h all = tt
later now t (u ∷ ts) h all = ((λ d. let p = all.0 d in omega arith), later now t ts h all.1)

pub due_loop-finds :
    (now i most : ℕ) (idx : Option ℕ) (ts : List Timer)
    → Found now i most idx ts (due_loop now i most idx ts)
unfolding due_loop
due_loop-finds now i most idx [] = inl (refl, tt)
due_loop-finds now i most idx (t ∷ ts) = elim (Bool-cases (is_due now most t)) [
  | inl y ↦ rw y (
      let d = take_due now most t y in
      elim (due_loop-finds now (i + 1) (now - t.end) (some i) ts) [
        | inl (e, all) ↦ inr (
          0,
          t,
          e ∙ ap some (omega arith),
          refl,
          d.0,
          d.1,
          ((λ u. omega arith), later now t ts d.0.1 all),
        )
        | inr (j, u, e, g, due, gap, all) ↦
            inr
              (suc j, u, e ∙ ap some (omega arith), g, due, omega arith, ((λ v. omega arith), all))
      ])
  | inr n ↦ rw n (elim (due_loop-finds now (i + 1) most idx ts) [
    | inl (e, all) ↦ inl (e, (pass_due now most t n, all))
    | inr (j, u, e, g, due, gap, all) ↦ inr (
      suc j,
      u,
      e ∙ ap some (omega arith),
      g,
      due,
      gap,
      ((λ v. let p = pass_due now most t n v in omega arith), all),
    )
  ])
]

-- What an alarm at `now` does to a table of timers.
abbrev pub Alarm : (now : ℕ) → List Timer → Option (ℕ × List Timer × ℕ) → Type 0
Alarm now ts none = All (λ u. ¬ Due now u) ts
Alarm now ts (some (k, after, alarm)) =
    (t : Timer) × (get_elem? ts k ≡ some t)
    × Due now t
    × All (λ u. Due now u → t.end ≤ u.end) ts
    × (after ≡ set ts k (record t { running = false }))
    × (alarm ≡ calc_min_time now after)

get_or-get :
    (ts : List Timer) (k : ℕ) (t : Timer) → get_elem? ts k ≡ some t → get_or ts k idle_timer ≡ t
get_or-get [] k t e = cc
get_or-get (u ∷ ts) zero t e = cc
get_or-get (u ∷ ts) (suc k) t e = get_or-get ts k t e

pub none_due :
    (now : ℕ) (ts : List Timer)
    → All (λ u. Due now u → now < 0 + u.end) ts
    → All (λ u. ¬ Due now u) ts
none_due now [] all = tt
none_due now (t ∷ ts) all = ((λ d. let p = all.0 d in omega arith), none_due now ts all.1)

-- The alarm's handler reports a running timer whose time has come and that no other such timer is
-- more overdue than; it stops that timer and no other, and sets the next alarm. It reports none
-- only when no running timer's time has come.
pub timeout_handler-fires : (now : ℕ) (ts : List Timer) → Alarm now ts (timeout_handler now ts)
unfolding timeout_handler fire
timeout_handler-fires now ts = elim (due_loop-finds now 0 0 none ts) [
  | inl (e, all) ↦ subst (λ r. Alarm now ts (fire now ts r)) (sym e) (none_due now ts all)
  | inr (j, t, e, g, due, gap, all) ↦
      subst (λ r. Alarm now ts (fire now ts r)) (sym (e ∙ ap some (omega arith)))
        (
          t,
          g,
          due,
          all,
          ap (λ u. set ts j (record u { running = false })) (get_or-get ts j t g),
          refl,
        )
]

-- The loop of calc_min_time() counts up and lowers the time.
min_loop-bounds :
    (now num m : ℕ) (ts : List Timer) → let r = min_loop now num m ts in (num ≤ r.0) × (r.1 ≤ m)
unfolding min_loop
min_loop-bounds now num m [] = (omega arith, omega arith)
min_loop-bounds now num m (t ∷ ts) = elim (Bool-cases t.running) [
  | inl on ↦
      let least : ℕ = if ltb m (t.end - now) then m else t.end - now in
      let lower : least ≤ m = ground arith in
      rw on (let r = min_loop-bounds now (num + 1) least ts in (omega arith, omega arith))
  | inr off ↦ rw off (min_loop-bounds now num m ts)
]

-- It takes account of every running timer.
min_loop-least :
    (now num m k : ℕ) (ts : List Timer) (t : Timer)
    → get_elem? ts k ≡ some t
    → t.running ≡ true
    → let r = min_loop now num m ts in (num < r.0) × (r.1 ≤ t.end - now)
unfolding min_loop
min_loop-least now num m k [] t g on = absurd (some-ne-none t (sym g))
min_loop-least now num m zero (u ∷ ts) t g on =
    let least : ℕ = if ltb m (t.end - now) then m else t.end - now in
    let lower : least ≤ t.end - now = ground arith in
    let same : u ≡ t = cc in
    rw (same, on) (let r = min_loop-bounds now (num + 1) least ts in (omega arith, omega arith))
min_loop-least now num m (suc k) (u ∷ ts) t g on = elim (Bool-cases u.running) [
  | inl running ↦ rw running (
      let r =
        min_loop-least now (num + 1) (if ltb m (u.end - now) then m else u.end - now) k ts t g on in
      (omega arith, r.1))
  | inr off ↦ rw off (min_loop-least now num m k ts t g on)
]

-- While a timer runs an alarm is set, for a second or more, for five minutes or less, and not
-- later than the timer expires unless that is within a second.
pub calc_min_time-covers :
    (now k : ℕ) (ts : List Timer) (t : Timer)
    → get_elem? ts k ≡ some t
    → t.running ≡ true
    → let alarm = calc_min_time now ts in
      (1 ≤ alarm) × (alarm ≤ 300) × (now + alarm ≤ max (now + 1) t.end)
unfolding calc_min_time
calc_min_time-covers now k ts t g on =
    let r = min_loop-least now 0 300 k ts t g on in
    let b = min_loop-bounds now 0 300 ts in ground arith
