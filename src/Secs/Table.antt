-- ===== src/Secs/Table.antt =====
-- The table of open transactions: what opening and answering a transaction do to the others.
use sc_open.Prelude.{
  ℕ, ◌≤◌, ◌≡◌, refl, ◌↔◌, inl, inr, true, Option, none, some, List, [], ◌∷◌, map, All, ltb, ◌==◌,
  Option-cases, if◌then◌else◌, arith,
}
use sc_open.Secs.{
  Transaction, Reply, expected, too_late, not_expected, expire, place, open_trans_table_add,
  open_trans_table_del,
}

-- A transaction that still waits for its reply.
abbrev pub Live : ℕ → Transaction → Type 0
Live now e = (e.active ≡ true) × (now ≤ e.end_time)

-- The first entry with these system bytes, open or not: the one that a reply is matched with.
unfoldable pub first : List Transaction → ℕ → Option Transaction
first [] sb = none
first (e ∷ es) sb = let rest = first es sb in if e.system_bytes == sb then some e else rest

-- The reply of open_trans_table_del() is a function of that entry alone.
abbrev pub answer : ℕ → Option Transaction → Reply
answer now none = not_expected
answer now (some e) = if ltb e.end_time now then too_late else expected e.program_idx e.timer_idx

pub del-answer :
    (t : List Transaction) (now sb : ℕ)
    → (open_trans_table_del t now sb).0 ≡ answer now (first t sb)
unfolding open_trans_table_del first
del-answer [] now sb = refl
del-answer (e ∷ es) now sb = ground (arith, del-answer es now sb)

place-none :
    (new : Transaction) (t : List Transaction) → (place new t ≡ none) ↔ All (λ e. e.active ≡ true) t
unfolding place
place-none new [] = (λ _. tt, λ _. refl)
place-none new (e ∷ es) = elim (Option-cases (place new es)) [
  | inl p ↦ (λ h. (ground (arith, p), (place-none new es).0 p), λ a. ground (arith, p, a.0))
  | inr (r, p) ↦
      (λ h. absurd (ground (arith, p)), λ a. absurd (ground (arith, p, (place-none new es).1 a.1)))
]

expire-active :
    (now : ℕ) (t : List Transaction)
    → All (λ e. e.active ≡ true) (map (expire now) t) ↔ All (Live now) t
unfolding expire
expire-active now [] = (λ _. tt, λ _. tt)
expire-active now (e ∷ es) = (
  λ a. (ground (arith, a.0), (expire-active now es).0 a.1),
  λ a. (ground (arith, a.0), (expire-active now es).1 a.1),
)

-- Opening a transaction ends the program exactly when every entry of the table still waits.
pub add-full :
    (t : List Transaction) (now p sb timer seconds : ℕ)
    → (open_trans_table_add t now p sb timer seconds ≡ none) ↔ All (Live now) t
unfolding open_trans_table_add
add-full t now p sb timer seconds = (
  λ h. (expire-active now t).0 ((place-none _ (map (expire now) t)).0 h),
  λ a. (place-none _ (map (expire now) t)).1 ((expire-active now t).1 a),
)
