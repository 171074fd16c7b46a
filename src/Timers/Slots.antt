-- ===== src/Timers/Slots.antt =====
-- In which slot of the table a timer is started.
use sc_open.Prelude.{
  ℕ, zero, suc, ◌+◌, ◌≤◌, ◌≡◌, ◌≢◌, refl, sym, ap, ◌∙◌, true, false, inl, inr, Option, none, some,
  List, [], ◌∷◌, drop, length, get_elem?, set, ltb, arith, Bool-cases,
}
use sc_open.Timers.{UserTimer, free_slot, choose_slot, idx_valid, fill_slot, start_user_timer}

-- The slot is from i on, free, and the entry at its place.
abbrev FreeAt : ℕ → List UserTimer → ℕ → Type 0
FreeAt i ts slot =
    (j : ℕ) × (t : UserTimer) × (slot ≡ i + j) × (get_elem? ts j ≡ some t) × (t.active ≡ false)

free_slot-FreeAt :
    (i : ℕ) (ts : List UserTimer) (slot : ℕ) → free_slot i ts ≡ some slot → FreeAt i ts slot
unfolding free_slot
free_slot-FreeAt i [] slot h = cc
free_slot-FreeAt i (t ∷ ts) slot h = elim (Bool-cases t.active) [
  | inl p ↦
      let (j, u, e, g, a) = free_slot-FreeAt (i + 1) ts slot (rw p at h) in
      (suc j, u, omega arith, g, a)
  | inr p ↦ (0, t, ground (arith, p), refl, p)
]

get_elem?-drop : (n j : ℕ) (ts : List UserTimer) → get_elem? (drop n ts) j ≡ get_elem? ts (n + j)
get_elem?-drop zero j ts = ap (get_elem? ts) (omega arith)
get_elem?-drop (suc n) j [] = refl
get_elem?-drop (suc n) j (t ∷ ts) =
    get_elem?-drop n j ts ∙ ap (get_elem? (t ∷ ts)) {x = suc (n + j)} (omega arith)

choose_slot-free :
    (k : Option ℕ) (ts : List UserTimer) → k ≢ some 0 → choose_slot k ts ≡ free_slot 10 (drop 10 ts)
unfolding choose_slot
choose_slot-free none ts h = refl
choose_slot-free (some zero) ts h = absurd (h refl)
choose_slot-free (some (suc k)) ts h = ground arith

-- What fill_slot() has done where it has not ended the program.
fill_slot-eq-some :
    (now seconds p : ℕ) (msg : List ℕ) (ts ts2 : List UserTimer) (o : Option ℕ) (slot alarm : ℕ)
    → fill_slot now seconds p msg ts o ≡ some (slot, ts2, alarm)
    → (o ≡ some slot)
      × (ts2
          ≡ set ts slot (record { active = true; end = now + seconds; program_idx = p; msg = msg }))
unfolding fill_slot
fill_slot-eq-some now seconds p msg ts ts2 none slot alarm h = cc
fill_slot-eq-some now seconds p msg ts ts2 (some i) slot alarm h =
    elim (Bool-cases (ltb (length msg) 128)) [
      | inl y ↦ let h2 = rw y at h in (cc, cc)
      | inr n ↦ let h2 = rw n at h in (cc, cc)
    ]

-- A timer that is started with any index but 0, the user's numbers 1 to 9 included, goes to a slot
-- from 10 on that was free; no other slot changes.
pub start_user_timer_slot :
    (now : ℕ) (k : Option ℕ) (seconds p : ℕ) (msg : List ℕ) (ts ts2 : List UserTimer)
    (slot alarm : ℕ)
    → k ≢ some 0
    → start_user_timer now k seconds p msg ts ≡ some (slot, ts2, alarm)
    → (10 ≤ slot)
      × ((t : UserTimer) × (get_elem? ts slot ≡ some t) × (t.active ≡ false))
      × (ts2
          ≡ set ts slot (record { active = true; end = now + seconds; program_idx = p; msg = msg }))
unfolding start_user_timer
start_user_timer_slot now k seconds p msg ts ts2 slot alarm nonzero h =
    elim (Bool-cases (idx_valid k)) [
      | inl y ↦
          let filled =
            fill_slot-eq-some now seconds p msg ts ts2 (choose_slot k ts) slot alarm (rw y at h) in
          let (j, u, e, g, a) =
            free_slot-FreeAt 10 (drop 10 ts) slot
              (sym (choose_slot-free k ts nonzero) ∙ filled.0) in
          (omega arith, (u, ap (get_elem? ts) e ∙ sym (get_elem?-drop 10 j ts) ∙ g, a), filled.1)
      | inr n ↦ let h2 = rw n at h in cc
    ]
