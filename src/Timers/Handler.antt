-- ===== src/Timers/Handler.antt =====
-- source/timers.c: stop_timer() and timer_handler(), and which timer the handler takes. Behind the
-- timer the program is resumed, which may start and stop timers: what it does to the table is an
-- argument, and so is the time that calc_min_time() reads after it.
use mathlib.Core.Option.{some-ne-none, some-injective}
use sc_open.Prelude.{
  ℕ, zero, suc, ◌≤◌, ◌≡◌, refl, sym, ap, subst, ◌∙◌, inl, inr, true, false, Option, none, some,
  List, [], ◌∷◌, map, get_elem?, get_or, set, All, arith,
}
use sc_open.ProtoTimers.{Timer, due_loop}
use sc_open.ProtoTimers.Expiry.{Due, due_loop-finds, none_due}
use sc_open.Timers.{UserTimer, user_min_time}

abbrev pub no_timer : UserTimer
no_timer = record { active = false; end = 0; program_idx = 0; msg = [] }

-- stop_timer(); cmd_stop_timer() has checked the index.
unfoldable pub stop_timer : (idx : ℕ) → List UserTimer → List UserTimer
stop_timer idx ts = set ts idx (record (get_or ts idx no_timer) { active = false })

abbrev as_timer : UserTimer → Timer
as_timer t = record { running = t.active; end = t.end }

-- The loop of timer_handler(), whose tests are those of timeout_handler() in source/proto_timers.c:
-- the active timer that is most overdue, the last of those where several are.
unfoldable pub expired : (now : ℕ) → List UserTimer → Option ℕ
expired now ts = due_loop now 0 0 none (map as_timer ts)

-- timers[] and the time given to set_server_timeout(), with the timer that was taken.
pub record TimerRun : Type 0 where
  pub taken : Option ℕ
  pub timers : List UserTimer
  pub timeout : ℕ

module _ (resume : (program_idx : ℕ) → (msg : List ℕ) → List UserTimer → List UserTimer) where
  abbrev pub handle : (later : ℕ) → List UserTimer → Option ℕ → TimerRun
  handle later ts none = record { taken = none; timers = ts; timeout = user_min_time later ts }
  handle later ts (some idx) =
      let t = get_or ts idx no_timer in
      let after = resume t.program_idx t.msg (stop_timer idx ts) in
      record { taken = some idx; timers = after; timeout = user_min_time later after }

  unfoldable pub timer_handler : (now later : ℕ) → List UserTimer → TimerRun
  timer_handler now later ts = handle later ts (expired now ts)

  -- An active timer whose time has come.
  abbrev pub UserDue : ℕ → UserTimer → Type 0
  UserDue now t = (t.active ≡ true) × (t.end ≤ now)

  -- What a run at `now` does.
  abbrev pub Takes : (now : ℕ) → List UserTimer → Option ℕ → List UserTimer → Type 0
  Takes now ts none after = All (λ u. ¬ UserDue now u) ts × (after ≡ ts)
  Takes now ts (some idx) after =
      (t : UserTimer) × (get_elem? ts idx ≡ some t)
      × UserDue now t
      × All (λ u. UserDue now u → t.end ≤ u.end) ts
      × (after ≡ resume t.program_idx t.msg (set ts idx (record t { active = false })))

All-as_timer {κ} :
    (P : Timer → Type κ) (ts : List UserTimer)
    → All P (map as_timer ts)
    → All (λ t. P (as_timer t)) ts
All-as_timer P [] h = tt
All-as_timer P (t ∷ ts) h = (h.0, All-as_timer P ts h.1)

timer_there :
    (ts : List UserTimer) (k : ℕ) (u : Timer)
    → get_elem? (map as_timer ts) k ≡ some u
    → (t : UserTimer) × (get_elem? ts k ≡ some t) × (as_timer t ≡ u)
timer_there [] k u e = absurd (some-ne-none u (sym e))
timer_there (t ∷ ts) zero u e = (t, refl, some-injective (as_timer t) u e)
timer_there (t ∷ ts) (suc k) u e = timer_there ts k u e

get_or-there :
    (ts : List UserTimer) (k : ℕ) (t : UserTimer)
    → get_elem? ts k ≡ some t
    → get_or ts k no_timer ≡ t
get_or-there [] k t e = absurd (some-ne-none t (sym e))
get_or-there (u ∷ ts) zero t e = some-injective u t e
get_or-there (u ∷ ts) (suc k) t e = get_or-there ts k t e

module _ (resume : (program_idx : ℕ) → (msg : List ℕ) → List UserTimer → List UserTimer) where
  taken_timer :
      (now later : ℕ) (ts : List UserTimer) (j : ℕ) (u : Timer)
      → get_elem? (map as_timer ts) j ≡ some u
      → Due now u
      → All (λ v. Due now v → u.end ≤ v.end) (map as_timer ts)
      → Takes resume now ts (some j) (handle resume later ts (some j)).timers
  unfolding stop_timer
  taken_timer now later ts j u there due least =
      let (t, at, same) = timer_there ts j u there in
      let due_t = subst (Due now) (sym same) due in
      (
        t,
        at,
        due_t,
        All-as_timer (λ v. Due now v → t.end ≤ v.end) ts
            (subst (λ w. All (λ v. Due now v → w.end ≤ v.end) (map as_timer ts)) (sym same) least),
        ap (λ v. resume v.program_idx v.msg (set ts j (record v { active = false })))
            (get_or-there ts j t at),
      )

  -- timer_handler() takes an active timer whose time has come and that no other such timer is more
  -- overdue than, stops it and then resumes the program at its place; it takes none, and leaves the
  -- table, only when no active timer's time has come. The timeout is made of the table it leaves.
  pub timer_handler-Takes :
      (now later : ℕ) (ts : List UserTimer)
      → (let h = timer_handler resume now later ts in
          Takes resume now ts h.taken h.timers × (h.timeout ≡ user_min_time later h.timers))
  unfolding timer_handler expired
  timer_handler-Takes now later ts = elim (due_loop-finds now 0 0 none (map as_timer ts)) [
    | inl (e, all) ↦
        subst
          (λ o.
            Takes resume now ts (handle resume later ts o).taken (handle resume later ts o).timers
            × ((handle resume later ts o).timeout
                ≡ user_min_time later (handle resume later ts o).timers))
          (sym e)
          ((All-as_timer (λ u. ¬ Due now u) ts (none_due now (map as_timer ts) all), refl), refl)
    | inr (j, u, e, there, due, gap, least) ↦
        subst
          (λ o.
            Takes resume now ts (handle resume later ts o).taken (handle resume later ts o).timers
            × ((handle resume later ts o).timeout
                ≡ user_min_time later (handle resume later ts o).timers))
          (sym (e ∙ ap some (omega arith))) (taken_timer now later ts j u there due least, refl)
  ]
