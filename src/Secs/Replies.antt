-- ===== src/Secs/Replies.antt =====
-- Replies are matched with the transactions that wait for them.
use sc_open.Prelude.{
  ℕ, ◌+◌, ◌≡◌, ◌≢◌, ap, ◌∙◌, inl, inr, none, some, List, [], ◌∷◌, map, All, ltb, Option-cases,
  if◌then◌else◌, arith,
}
use sc_open.Secs.{
  Transaction, expected, too_late, expire, place, open_trans_table_add, open_trans_table_del,
}
use sc_open.Secs.Table.{Live, first, answer, del-answer, add-full}

-- No entry, open or not, carries these system bytes.
abbrev pub Unused : ℕ → List Transaction → Type 0
Unused sb = All (λ e. e.system_bytes ≢ sb)

expire-Unused : (now sb : ℕ) (t : List Transaction) → Unused sb t → Unused sb (map (expire now) t)
unfolding expire
expire-Unused now sb [] u = tt
expire-Unused now sb (e ∷ es) (h, u) = (λ p. h (ground (arith, p)), expire-Unused now sb es u)

first-place_new :
    (new : Transaction) (t t' : List Transaction)
    → Unused new.system_bytes t
    → place new t ≡ some t'
    → first t' new.system_bytes ≡ some new
unfolding place first
first-place_new new [] t' u h = cc
first-place_new new (e ∷ es) t' (ne, u) h = elim (Option-cases (place new es)) [
  | inl p ↦ ground (arith, p)
  | inr (r, p) ↦ ground (arith, p, first-place_new new es r u p)
]

-- A transaction opened under unused system bytes is answered with its program index and its timer
-- up to the second at which its time ends, and with an error after that.
pub add-del :
    (t t' : List Transaction) (now p sb timer seconds later : ℕ)
    → Unused sb t
    → open_trans_table_add t now p sb timer seconds ≡ some t'
    → (open_trans_table_del t' later sb).0
      ≡ (if ltb (now + seconds) later then too_late else expected p timer)
unfolding open_trans_table_add
add-del t t' now p sb timer seconds later u h =
    del-answer t' later sb
    ∙ ap (answer later) (first-place_new _ (map (expire now) t) t' (expire-Unused now sb t u) h)

closed_entry :
    (t : List Transaction) (now sb p timer : ℕ)
    → (open_trans_table_del t now sb).0 ≡ expected p timer
    → ¬ All (Live now) (open_trans_table_del t now sb).1
unfolding open_trans_table_del
closed_entry [] now sb p timer h a = cc
closed_entry (e ∷ es) now sb p timer h a = ground (arith, closed_entry es now sb p timer)

-- A matched reply frees an entry: the next transaction opened at that time has room.
pub del-add :
    (t : List Transaction) (now sb p timer p' sb' timer' seconds : ℕ)
    → (open_trans_table_del t now sb).0 ≡ expected p timer
    → open_trans_table_add (open_trans_table_del t now sb).1 now p' sb' timer' seconds ≢ none
del-add t now sb p timer p' sb' timer' seconds h full =
    closed_entry t now sb p timer h
      ((add-full (open_trans_table_del t now sb).1 now p' sb' timer' seconds).0 full)

-- The flag of an entry is not looked at: a second reply under the same system bytes, within the
-- time of the transaction, is matched again and resumes the same place of the program.
pub del-del :
    (t : List Transaction) (now sb p timer : ℕ)
    → (open_trans_table_del t now sb).0 ≡ expected p timer
    → (open_trans_table_del (open_trans_table_del t now sb).1 now sb).0 ≡ expected p timer
unfolding open_trans_table_del
del-del [] now sb p timer h = h
del-del (e ∷ es) now sb p timer h = ground (arith, del-del es now sb p timer)
