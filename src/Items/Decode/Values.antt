-- ===== src/Items/Decode/Values.antt =====
-- The variables of the data of an item are what its values mean.
use sc_open.Prelude.{
  ℕ, ◌+◌, ◌*◌, ◌/◌, ◌==◌, ◌^◌, ◌<◌, ◌≤◌, ◌≡◌, refl, ap, sym, ◌∙◌, Bool, some, List, [], ◌∷◌, ◌++◌,
  length, length-append, drop, take-append, drop-append, if◌then◌else◌, All, arith, none, true,
  false, suc, map, ltb, append-nil, Bool-cases, inl, inr,
}
use sc_open.Bytes.{to_wire, from_wire, swap, from_host}
use sc_open.Bytes.Order.{length-to_wire, from_wire-to_wire}
use sc_open.Numbers.{Text, my_utoa}
use sc_open.Items.Format.{Width, one, two, four, eight, width, boolean, unsigned}
use sc_open.Items.Entries.{
  fits, subscript, value_text, element_entries, entry, both, is_array, empty_entry, hex_entries,
  array_entries, data_entries,
}
use sc_open.Items.Encode.Print.{
  Values, texts, booleans, unsigneds, format, value_bytes, IsInRange, all_wire, boolean_byte,
}
use sc_open.Items.Meaning.{
  Meant, and_then, shown, place_of, numbered, single, array, digit_of, values,
}

-- The values one behind the other: all under the name of the item, or each with its place behind it.
unfoldable pub listed : (array : Bool) (base : Text) (i : ℕ) → List Text → Meant
listed array base i [] = some []
listed array base i (x ∷ xs) =
    and_then (shown (if array then place_of base (i + 1) else base) x)
      (listed array base (i + 1) xs)

listed-true : (base : Text) (i : ℕ) (xs : List Text) → listed true base i xs ≡ numbered base i xs
unfolding listed numbered
listed-true base i [] = refl
listed-true base i (x ∷ xs) =
    ap (and_then (shown (place_of base (i + 1)) x)) (listed-true base (i + 1) xs)

length-map : {A B : Type 0} (f : A → B) (xs : List A) → length (map f xs) ≡ length xs
length-map f [] = refl
length-map f (x ∷ xs) = ap suc (length-map f xs)

-- Behind the elements of an array.
abbrev counted : Text → ℕ → Meant
counted base n =
    and_then (some ((base, b'A' ∷ b'R' ∷ b'R' ∷ b'A' ∷ b'Y' ∷ []) ∷ []))
      (shown (base ++ b'[' ∷ b'0' ∷ b']' ∷ []) (my_utoa n))

and_then-nil : (m : Meant) → and_then m (some []) ≡ m
and_then-nil none = refl
and_then-nil (some es) = ap some (append-nil es)

entry-shown :
    (print_float : List ℕ → Text) (name value : Text) (m : Meant)
    → entry print_float (fits name) (some value) m ≡ and_then (shown name value) m
unfolding fits
entry-shown print_float name value m = elim (Bool-cases (ltb (length name) 256)) [
  | inl p ↦ rw p (turn m)
  | inr p ↦ rw p refl
]
  where
    turn :
        (o : Meant)
        → entry print_float (some name) (some value) o ≡ and_then (some ((name, value) ∷ [])) o
    turn none = refl
    turn (some es) = refl

width-le : (w : Width) → width w ≤ 64
width-le one = omega arith
width-le two = omega arith
width-le four = omega arith
width-le eight = omega arith

range-wire : (w : Width) (n : ℕ) → n < 2 ^ (8 * width w) → n < 256 ^ width w
range-wire one n h = h
range-wire two n h = h
range-wire four n h = h
range-wire eight n h = h

module _ (print_float : List ℕ → Text) (w : Width) where
  value_text-to_wire :
      (n : ℕ)
      → n < 2 ^ (8 * width w)
      → value_text print_float (unsigned w) (to_wire (width w) n) ≡ some (my_utoa n)
  unfolding value_text
  value_text-to_wire n small =
      ap (λ v. some (my_utoa v)) (from_wire-to_wire (width w) n (width-le w) (range-wire w n small))

  -- The loop over the elements of unsigned integers of their width gives each under its name, as
  -- my_utoa() writes it.
  pub element_entries-all_wire :
      (base : Text) (array : Bool) (i : ℕ) (ns : List ℕ)
      → All (λ n. n < 2 ^ (8 * width w)) ns
      → element_entries print_float (unsigned w) base array (length ns) i (all_wire w ns)
        ≡ listed array base i (map my_utoa ns)
  unfolding element_entries listed subscript
  element_entries-all_wire base array i [] h = refl
  element_entries-all_wire base array i (n ∷ ns) (small, h) =
      let wire = to_wire (width w) n in
      let len = sym (length-to_wire (width w) n (width-le w)) in
      let name = fits (if array then base ++ subscript (i + 1) else base) in
      ap
        (λ b. entry print_float name (value_text print_float (unsigned w) b) (
          element_entries print_float (unsigned w) base array (length ns) (i + 1)
            (drop (width w) (wire ++ all_wire w ns))))
        (take-append wire (all_wire w ns) (width w) len)
      ∙ ap
          (λ b.
            entry print_float name (value_text print_float (unsigned w) wire)
              (element_entries print_float (unsigned w) base array (length ns) (i + 1) b))
          (drop-append wire (all_wire w ns) (width w) len)
      ∙ ap
          (λ v. entry print_float name v (
            element_entries print_float (unsigned w) base array (length ns) (i + 1)
              (all_wire w ns)))
          (value_text-to_wire n small)
      ∙ ap (entry print_float name (some (my_utoa n)))
          (element_entries-all_wire base array (i + 1) ns h)
      ∙ entry-shown print_float (if array then place_of base (i + 1) else base) (my_utoa n)
          (listed array base (i + 1) (map my_utoa ns))

module _ (print_float : List ℕ → Text) where
  element_entries-booleans :
      (base : Text) (array : Bool) (i : ℕ) (bs : List Bool)
      → element_entries print_float boolean base array (length bs) i (map boolean_byte bs)
        ≡ listed array base i (map digit_of bs)
  unfolding element_entries listed subscript value_text from_wire swap from_host
  element_entries-booleans base array i [] = refl
  element_entries-booleans base array i (false ∷ bs) =
      entry-shown print_float (if array then place_of base (i + 1) else base) (b'0' ∷ [])
        (element_entries print_float boolean base array (length bs) (i + 1) (map boolean_byte bs))
      ∙ ap (and_then (shown (if array then place_of base (i + 1) else base) (b'0' ∷ [])))
          (element_entries-booleans base array (i + 1) bs)
  element_entries-booleans base array i (true ∷ bs) =
      entry-shown print_float (if array then place_of base (i + 1) else base) (b'1' ∷ [])
        (element_entries print_float boolean base array (length bs) (i + 1) (map boolean_byte bs))
      ∙ ap (and_then (shown (if array then place_of base (i + 1) else base) (b'1' ∷ [])))
          (element_entries-booleans base array (i + 1) bs)

  -- An array: the elements, the word for an array and their count.
  both-array :
      (base : Text) (n : ℕ) (m : Meant)
      → both print_float [] m
          (elim (entry print_float
            (fits (base ++ b'[' ∷ b'0' ∷ b']' ∷ []))
            (some (my_utoa n))
            (some [])) [
              | none ↦ none
              | some count ↦ some ((base, b'A' ∷ b'R' ∷ b'R' ∷ b'A' ∷ b'Y' ∷ []) ∷ count)
            ])
        ≡ and_then m (
            and_then
              (some ((base, b'A' ∷ b'R' ∷ b'R' ∷ b'A' ∷ b'Y' ∷ []) ∷ []))
              (shown (base ++ b'[' ∷ b'0' ∷ b']' ∷ []) (my_utoa n)))
  unfolding fits
  both-array base n none = refl
  both-array base n (some es) =
      elim (Bool-cases (ltb (length (base ++ b'[' ∷ b'0' ∷ b']' ∷ [])) 256)) [
        | inl p ↦ rw p refl
        | inr p ↦ rw p refl
      ]

  both-one : (m : Meant) → both print_float [] m (some []) ≡ m
  both-one none = refl
  both-one (some es) = ap some (append-nil es)

  data-booleans :
      (base : Text) (bs : List Bool) (size : ℕ)
      → size ≡ length bs
      → data_entries print_float boolean base size (map boolean_byte bs)
        ≡ single base (map digit_of bs)
  unfolding data_entries single is_array empty_entry array_entries hex_entries
  data-booleans base [] size e = rw e (unfold element_entries in refl)
  data-booleans base (b ∷ []) size e = rw e (
      both-one (element_entries print_float boolean base false 1 0 (boolean_byte b ∷ []))
      ∙ element_entries-booleans base false 0 (b ∷ [])
      ∙ unfold listed in and_then-nil (shown base (digit_of b)))
  data-booleans base (b ∷ c ∷ bs) size e =
      let q : size / 1 ≡ length (b ∷ c ∷ bs) = omega (arith, e) in
      let several : ltb 1 size ≡ true = ground (arith, e) in
      let some_left : (size == 0) ≡ false = ground (arith, e) in
      rw (q, several, some_left)
        (both-array base (length (b ∷ c ∷ bs)) (
            element_entries print_float boolean base true (length (b ∷ c ∷ bs)) 0
              (map boolean_byte (b ∷ c ∷ bs)))
          ∙ ap (λ m. and_then m (counted base (length (b ∷ c ∷ bs))))
              (element_entries-booleans base true 0 (b ∷ c ∷ bs)
                ∙ listed-true base 0 (map digit_of (b ∷ c ∷ bs)))
          ∙ ap (λ n. and_then (numbered base 0 (map digit_of (b ∷ c ∷ bs))) (counted base n))
              (sym (length-map digit_of (b ∷ c ∷ bs))))

  unsigneds-array :
      (w : Width) (base : Text) (ns : List ℕ) (size : ℕ)
      → size / width w ≡ length ns
      → (size == 0) ≡ false
      → is_array print_float (unsigned w) size ≡ true
      → All (λ n. n < 2 ^ (8 * width w)) ns
      → data_entries print_float (unsigned w) base size (all_wire w ns)
        ≡ and_then (numbered base 0 (map my_utoa ns)) (counted base (length (map my_utoa ns)))
  unfolding data_entries empty_entry array_entries hex_entries
  unsigneds-array w base ns size q some_left several h =
      rw (q, several, some_left)
        (both-array base (length ns)
            (element_entries print_float (unsigned w) base true (length ns) 0 (all_wire w ns))
          ∙ ap (λ m. and_then m (counted base (length ns)))
              (element_entries-all_wire print_float w base true 0 ns h
                ∙ listed-true base 0 (map my_utoa ns))
          ∙ ap (λ n. and_then (numbered base 0 (map my_utoa ns)) (counted base n))
              (sym (length-map my_utoa ns)))

  unsigneds-one :
      (w : Width) (base : Text) (n size : ℕ)
      → size / width w ≡ 1
      → (size == 0) ≡ false
      → is_array print_float (unsigned w) size ≡ false
      → n < 2 ^ (8 * width w)
      → data_entries print_float (unsigned w) base size (all_wire w (n ∷ []))
        ≡ shown base (my_utoa n)
  unfolding data_entries empty_entry array_entries listed
  unsigneds-one w base n size q some_left alone h =
      rw (q, alone, some_left)
        (both-one (element_entries print_float (unsigned w) base false 1 0 (all_wire w (n ∷ [])))
          ∙ element_entries-all_wire print_float w base false 0 (n ∷ []) (h, tt)
          ∙ and_then-nil (shown base (my_utoa n)))

  unsigneds-none :
      (w : Width) (base : Text) (size : ℕ)
      → size ≡ 0
      → data_entries print_float (unsigned w) base size (all_wire w []) ≡ some ((base, []) ∷ [])
  unfolding data_entries empty_entry array_entries hex_entries is_array element_entries
  unsigneds-none one base size e = rw e refl
  unsigneds-none two base size e = rw e refl
  unsigneds-none four base size e = rw e refl
  unsigneds-none eight base size e = rw e refl

  data-unsigneds :
      (w : Width) (base : Text) (ns : List ℕ) (size : ℕ)
      → size ≡ length ns * width w
      → All (λ n. n < 2 ^ (8 * width w)) ns
      → data_entries print_float (unsigned w) base size (all_wire w ns)
        ≡ values (unsigneds w ns) base
  unfolding single array values is_array
  data-unsigneds one base [] size e h = unsigneds-none one base size e
  data-unsigneds one base (n ∷ ns) size e h =
      unsigneds-array one base (n ∷ ns) size (omega (arith, e)) (ground (arith, e))
        (ground (arith, e)) h
  data-unsigneds two base [] size e h = unsigneds-none two base size e
  data-unsigneds two base (n ∷ []) size e h =
      unsigneds-one two base n size (omega (arith, e)) (ground (arith, e)) (ground (arith, e)) h.0
  data-unsigneds two base (n ∷ m ∷ ns) size e h =
      unsigneds-array two base (n ∷ m ∷ ns) size (omega (arith, e)) (ground (arith, e))
        (ground (arith, e)) h
  data-unsigneds four base [] size e h = unsigneds-none four base size e
  data-unsigneds four base (n ∷ []) size e h =
      unsigneds-one four base n size (omega (arith, e)) (ground (arith, e)) (ground (arith, e)) h.0
  data-unsigneds four base (n ∷ m ∷ ns) size e h =
      unsigneds-array four base (n ∷ m ∷ ns) size (omega (arith, e)) (ground (arith, e))
        (ground (arith, e)) h
  data-unsigneds eight base [] size e h = unsigneds-none eight base size e
  data-unsigneds eight base (n ∷ []) size e h =
      unsigneds-one eight base n size (omega (arith, e)) (ground (arith, e)) (ground (arith, e)) h.0
  data-unsigneds eight base (n ∷ m ∷ ns) size e h =
      unsigneds-array eight base (n ∷ m ∷ ns) size (omega (arith, e)) (ground (arith, e))
        (ground (arith, e)) h

  length-all_wire : (w : Width) (ns : List ℕ) → length (all_wire w ns) ≡ length ns * width w
  length-all_wire w [] = omega arith
  length-all_wire one (n ∷ ns) = omega (
    arith,
    length-append (to_wire (width one) n) (all_wire one ns),
    length-to_wire (width one) n (width-le one),
    length-all_wire one ns,
  )
  length-all_wire two (n ∷ ns) = omega (
    arith,
    length-append (to_wire (width two) n) (all_wire two ns),
    length-to_wire (width two) n (width-le two),
    length-all_wire two ns,
  )
  length-all_wire four (n ∷ ns) = omega (
    arith,
    length-append (to_wire (width four) n) (all_wire four ns),
    length-to_wire (width four) n (width-le four),
    length-all_wire four ns,
  )
  length-all_wire eight (n ∷ ns) = omega (
    arith,
    length-append (to_wire (width eight) n) (all_wire eight ns),
    length-to_wire (width eight) n (width-le eight),
    length-all_wire eight ns,
  )

  -- The variables that are added for the values of an item are those that they mean.
  pub data_entries-values :
      (v : Values) (base : Text)
      → IsInRange v
      → data_entries print_float (format v) base (length (value_bytes v)) (value_bytes v)
        ≡ values v base
  data_entries-values (texts ts) base h = unfold data_entries values in refl
  data_entries-values (booleans bs) base h =
      unfold values in
      data-booleans base bs (length (map boolean_byte bs)) (length-map boolean_byte bs)
  data_entries-values (unsigneds w ns) base h =
      data-unsigneds w base ns (length (all_wire w ns)) (length-all_wire w ns) h
