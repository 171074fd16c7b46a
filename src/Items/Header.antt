-- ===== src/Items/Header.antt =====
-- The header of an item is read back as it was written, with as few length bytes as can be.
use sc_open.Prelude.{
  ℕ, ◌+◌, ◌%◌, ◌^◌, ◌<◌, ◌≡◌, inl, inr, List, ◌∷◌, ◌++◌, length, leb, arith, Bool-cases,
  append_assoc,
}
use sc_open.Items.{set_size_bytes, store_data, read_item_header}

-- The head alone, for a size that is no length of data.
pub read_item_header-head :
    (data_type n : ℕ) (next : List ℕ)
    → data_type < 256
    → data_type % 4 ≡ 0
    → n < 2 ^ 24
    → read_item_header ((data_type + length (set_size_bytes n)) % 256 ∷ (set_size_bytes n ++ next))
      ≡ record { data_type = data_type; size = n; rest = next }
unfolding read_item_header set_size_bytes
read_item_header-head data_type n next small free fits = elim (Bool-cases (leb n 0xFF)) [
  | inl one ↦ rw one (ground arith)
  | inr more ↦ elim (Bool-cases (leb n 0xFFFF)) [
    | inl two ↦ rw (more, two) (ground arith)
    | inr three ↦ rw (more, three) (ground arith)
  ]
]

-- An item of fewer than 2 ^ 24 bytes, whose type leaves the two low bits free, is read back with
-- its type, its size and its data, whatever follows it.
pub read_item_header-store_data :
    (data_type : ℕ) (bytes next : List ℕ)
    → data_type < 256
    → data_type % 4 ≡ 0
    → length bytes < 2 ^ 24
    → read_item_header (store_data data_type bytes ++ next)
      ≡ record { data_type = data_type; size = length bytes; rest = bytes ++ next }
unfolding store_data
read_item_header-store_data data_type bytes next small free fits =
    rw (append_assoc (set_size_bytes (length bytes)) bytes next)
      (read_item_header-head data_type (length bytes) (bytes ++ next) small free fits)
