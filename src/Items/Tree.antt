-- ===== src/Items/Tree.antt =====
-- The items of a message as a tree, and its bytes: the list head and STORE_DATA of
-- source/secs_encode_sml.c around what set_size_bytes() writes. A sequence of items is its first
-- item with the items behind it; those inside a list are a sequence too.
use sc_open.Prelude.{ℕ, suc, ◌+◌, ◌%◌, ◌^◌, ◌<◌, ◌≡◌, List, [], ◌∷◌, ◌++◌, length}
use sc_open.Items.{set_size_bytes, store_data}
use sc_open.Items.Format.{Format, list_code, code, element_size}

pub data Forest : Type 0 where
  end : Forest
  list : (items rest : Forest) → Forest
  data_item : Format → (bytes : List ℕ) → (rest : Forest) → Forest

abbrev pub count : Forest → ℕ
count end = 0
count (list items rest) = suc (count rest)
count (data_item f bytes rest) = suc (count rest)

-- The head of a list: its length is the number of its items.
unfoldable pub list_head : (num : ℕ) → List ℕ
list_head num = let size = set_size_bytes num in (list_code + length size) % 256 ∷ size

unfoldable pub encode : Forest → List ℕ
encode end = []
encode (list items rest) = list_head (count items) ++ (encode items ++ encode rest)
encode (data_item f bytes rest) = store_data (code f) bytes ++ encode rest

-- What fits into three length bytes, in whole elements.
abbrev pub IsEncodable : Forest → Type 0
IsEncodable end = Unit
IsEncodable (list items rest) = (count items < 2 ^ 24) × IsEncodable items × IsEncodable rest
IsEncodable (data_item f bytes rest) =
    (length bytes < 2 ^ 24) × (length bytes % element_size f ≡ 0) × IsEncodable rest
