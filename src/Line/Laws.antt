-- ===== src/Line/Laws.antt =====
-- What a statement on a line does where the line behaves, and what a statement that has returned a
-- value has done.
use sc_open.Prelude.{ℕ, ◌≡◌, refl, false, some, List, [], ◌∷◌, ◌++◌, arith}
use sc_open.Line.{
  Event, got, Line, Exit, value, ret, jump, blocked, bind_exit, M, ◌>>=◌, mem, remove, start_timer,
  read_events, my_readc, my_writec, write_or, catch,
}

-- A line with these events to come, whose writes all succeed.
abbrev pub clear : List Event → List ℕ → List ℕ → Line
clear es out ts = record { events = es; writes = []; sent = out; timers = ts }

pub bind-value :
    {A B : Type 0} (m : M A) (f : A → M B) (l l' : Line) (a : A)
    → m l ≡ (value a, l')
    → (m >>= f) l ≡ f a l'
bind-value m f l l' a e = rw e

-- Inversion: a sequence that has a value has run both its parts.
pub >>=-eq-value :
    {A B : Type 0} (m : M A) (f : A → M B) (l l' : Line) {b : B}
    → (m >>= f) l ≡ (value b, l')
    → (a : A) × (l1 : Line) × (m l ≡ (value a, l1)) × (f a l1 ≡ (value b, l'))
>>=-eq-value m f l l' {b} h = go (m l) refl h
  where
    go :
        (r : Exit _ × Line)
        → m l ≡ r
        → bind_exit r.0 r.1 f ≡ (value b, l')
        → (a : _) × (l1 : Line) × (m l ≡ (value a, l1)) × (f a l1 ≡ (value b, l'))
    go (value a, l1) e p = (a, l1, e, p)
    go (ret c, l1) e p = cc
    go (jump k, l1) e p = cc
    go (blocked, l1) e p = cc

pub remove-absent : (k : ℕ) (ts : List ℕ) → mem k ts ≡ false → remove k ts ≡ ts
remove-absent k [] h = refl
remove-absent k (j ∷ js) h = ground (arith, remove-absent k js)

pub remove-cons_self : (k : ℕ) (ts : List ℕ) → mem k ts ≡ false → remove k (k ∷ ts) ≡ ts
remove-cons_self k ts h = ground (arith, remove-absent k ts)

pub catch-value :
    {A : Type 0} (k : ℕ) (body handler : M A) (l l' : Line) (a : A)
    → body l ≡ (value a, l')
    → catch k body handler l ≡ (value a, l')
unfolding catch
catch-value k body handler l l' a e = rw (e, catch)

pub catch-ret :
    {A : Type 0} (k code : ℕ) (body handler : M A) (l l' : Line)
    → body l ≡ (ret code, l')
    → catch k body handler l ≡ (ret code, l')
unfolding catch
catch-ret k code body handler l l' e = rw (e, catch)

pub start_timer-absent :
    (k : ℕ) (es : List Event) (out ts : List ℕ)
    → mem k ts ≡ false
    → start_timer k (clear es out ts) ≡ (value tt, clear es out (k ∷ ts))
unfolding start_timer
start_timer-absent k es out ts h = rw h

pub write_or-clear :
    (code b : ℕ) (es : List Event) (out ts : List ℕ)
    → write_or code b (clear es out ts) ≡ (value tt, clear es (out ++ b ∷ []) ts)
unfolding write_or my_writec
write_or-clear code b es out ts = refl

pub my_readc-got :
    (c : ℕ) (es : List Event) (out ts : List ℕ)
    → my_readc (clear (got c ∷ es) out ts) ≡ (value (some c), clear es out ts)
unfolding my_readc read_events
my_readc-got c es out ts = refl
