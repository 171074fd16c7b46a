-- ===== src/Items/Decode/Heads.antt =====
-- The head of an item as secs_decode() takes it off the bytes, and the tests for its format.
use sc_open.Prelude.{
  ℕ, suc, ◌+◌, ◌*◌, ◌/◌, ◌%◌, ◌^◌, ◌<◌, ◌≡◌, refl, ap, inl, inr, true, false, some, List, ◌∷◌, ◌++◌,
  length, leb, ◌==◌, arith, Bool-cases, append_assoc,
}
use sc_open.Items.{set_size_bytes, store_data}
use sc_open.Items.Header.{read_item_header-head}
use sc_open.Items.Format.{
  one, two, four, eight, Format, ascii, binary, boolean, unsigned, signed, float_4, float_8,
  list_code, code, format_of, element_size,
}
use sc_open.Items.Tree.{list_head}
use sc_open.Items.Decode.{head_size, item_header}

head_size-head :
    (data_type n : ℕ) (next : List ℕ)
    → data_type < 256
    → data_type % 4 ≡ 0
    → n < 2 ^ 24
    → leb
        (head_size ((data_type + length (set_size_bytes n)) % 256 ∷ (set_size_bytes n ++ next)))
        (suc (length (set_size_bytes n ++ next)))
      ≡ true
unfolding head_size set_size_bytes
head_size-head data_type n next small free fits = elim (Bool-cases (leb n 0xFF)) [
  | inl short ↦ rw short (ground arith)
  | inr more ↦ elim (Bool-cases (leb n 0xFFFF)) [
    | inl medium ↦ rw (more, medium) (ground arith)
    | inr long ↦ rw (more, long) (ground arith)
  ]
]

item_header-head :
    (data_type n : ℕ) (next : List ℕ)
    → data_type < 256
    → data_type % 4 ≡ 0
    → n < 2 ^ 24
    → item_header ((data_type + length (set_size_bytes n)) % 256 ∷ (set_size_bytes n ++ next))
      ≡ some (record { data_type = data_type; size = n; rest = next })
unfolding item_header
item_header-head data_type n next small free fits =
    rw (head_size-head data_type n next small free fits)
      (ap some (read_item_header-head data_type n next small free fits))

pub item_header-list_head :
    (n : ℕ) (next : List ℕ)
    → n < 2 ^ 24
    → item_header (list_head n ++ next)
      ≡ some (record { data_type = list_code; size = n; rest = next })
unfolding list_head
item_header-list_head n next fits = item_header-head list_code n next (omega arith) refl fits

code-byte : (f : Format) → (code f < 256) × (code f % 4 ≡ 0)
code-byte ascii = (omega arith, refl)
code-byte binary = (omega arith, refl)
code-byte boolean = (omega arith, refl)
code-byte (unsigned one) = (omega arith, refl)
code-byte (unsigned two) = (omega arith, refl)
code-byte (unsigned four) = (omega arith, refl)
code-byte (unsigned eight) = (omega arith, refl)
code-byte (signed one) = (omega arith, refl)
code-byte (signed two) = (omega arith, refl)
code-byte (signed four) = (omega arith, refl)
code-byte (signed eight) = (omega arith, refl)
code-byte float_4 = (omega arith, refl)
code-byte float_8 = (omega arith, refl)

pub item_header-store_data :
    (f : Format) (bytes next : List ℕ)
    → length bytes < 2 ^ 24
    → item_header (store_data (code f) bytes ++ next)
      ≡ some (record { data_type = code f; size = length bytes; rest = bytes ++ next })
unfolding store_data
item_header-store_data f bytes next fits =
    let byte = code-byte f in
    rw (append_assoc (set_size_bytes (length bytes)) bytes next)
      (item_header-head (code f) (length bytes) (bytes ++ next) byte.0 byte.1 fits)

-- No item with data has the code of a list, and each code is that of one format.
pub format_of-code : (f : Format) → ((code f == list_code) ≡ false) × (format_of (code f) ≡ some f)
unfolding format_of
format_of-code ascii = (refl, refl)
format_of-code binary = (refl, refl)
format_of-code boolean = (refl, refl)
format_of-code (unsigned one) = (refl, refl)
format_of-code (unsigned two) = (refl, refl)
format_of-code (unsigned four) = (refl, refl)
format_of-code (unsigned eight) = (refl, refl)
format_of-code (signed one) = (refl, refl)
format_of-code (signed two) = (refl, refl)
format_of-code (signed four) = (refl, refl)
format_of-code (signed eight) = (refl, refl)
format_of-code float_4 = (refl, refl)
format_of-code float_8 = (refl, refl)

pub whole_elements :
    (f : Format) (n : ℕ) → n % element_size f ≡ 0 → n / element_size f * element_size f ≡ n
whole_elements ascii n h = omega arith
whole_elements binary n h = omega arith
whole_elements boolean n h = omega arith
whole_elements (unsigned one) n h = omega arith
whole_elements (unsigned two) n h = omega arith
whole_elements (unsigned four) n h = omega arith
whole_elements (unsigned eight) n h = omega arith
whole_elements (signed one) n h = omega arith
whole_elements (signed two) n h = omega arith
whole_elements (signed four) n h = omega arith
whole_elements (signed eight) n h = omega arith
whole_elements float_4 n h = omega arith
whole_elements float_8 n h = omega arith
