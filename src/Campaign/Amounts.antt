-- ===== src/Campaign/Amounts.antt =====
-- The amounts that formatRupees of campaign/manager.go prints can be read back.
use Prim.Native.Char.{Char, code}
use vasuli.Prelude.{
  ℕ, zero, suc, pos, ◌+◌, ◌*◌, ◌-◌, ◌/◌, ◌%◌, ◌≤◌, ◌<◌, ◌≡◌, refl, ap, sym, ◌∙◌, inl, inr, Bool,
  false, Bool-cases, List, [], ◌∷◌, ◌++◌, ◌==◌, arith, ltb, leb, length, take, drop, if◌then◌else◌,
}
use vasuli.Campaign.Rupees.{
  digit, digits_from, decimal, format_int, comma_groups, group_thousands, format_rupees,
}

abbrev digit_value : Char → ℕ
digit_value c = code c - 48

abbrev is_comma : Char → Bool
is_comma c = code c == 44

-- The number that a text of digits and commas stands for, after `acc`.
abbrev pub read : ℕ → List Char → ℕ
read acc [] = acc
read acc (c ∷ cs) =
    let skipped = read acc cs in
    let taken = read (acc * 10 + digit_value c) cs in if is_comma c then skipped else taken

digit_value-digit : (n : ℕ) → n < 10 → digit_value (digit n) ≡ n
digit_value-digit zero h = refl
digit_value-digit (suc zero) h = refl
digit_value-digit (suc (suc zero)) h = refl
digit_value-digit (suc (suc (suc zero))) h = refl
digit_value-digit (suc (suc (suc (suc zero)))) h = refl
digit_value-digit (suc (suc (suc (suc (suc zero))))) h = refl
digit_value-digit (suc (suc (suc (suc (suc (suc zero)))))) h = refl
digit_value-digit (suc (suc (suc (suc (suc (suc (suc zero))))))) h = refl
digit_value-digit (suc (suc (suc (suc (suc (suc (suc (suc zero)))))))) h = refl
digit_value-digit (suc (suc (suc (suc (suc (suc (suc (suc (suc zero))))))))) h = refl
digit_value-digit (suc (suc (suc (suc (suc (suc (suc (suc (suc (suc n)))))))))) h = omega arith

is_comma-digit : (n : ℕ) → n < 10 → is_comma (digit n) ≡ false
is_comma-digit zero h = refl
is_comma-digit (suc zero) h = refl
is_comma-digit (suc (suc zero)) h = refl
is_comma-digit (suc (suc (suc zero))) h = refl
is_comma-digit (suc (suc (suc (suc zero)))) h = refl
is_comma-digit (suc (suc (suc (suc (suc zero))))) h = refl
is_comma-digit (suc (suc (suc (suc (suc (suc zero)))))) h = refl
is_comma-digit (suc (suc (suc (suc (suc (suc (suc zero))))))) h = refl
is_comma-digit (suc (suc (suc (suc (suc (suc (suc (suc zero)))))))) h = refl
is_comma-digit (suc (suc (suc (suc (suc (suc (suc (suc (suc zero))))))))) h = refl
is_comma-digit (suc (suc (suc (suc (suc (suc (suc (suc (suc (suc n)))))))))) h =
    absurd (omega arith)

read-digit :
    (acc n : ℕ) (cs : List Char) → n < 10 → read acc (digit n ∷ cs) ≡ read (acc * 10 + n) cs
read-digit acc n cs h = rw (is_comma-digit n h, digit_value-digit n h) refl

read-digits_from :
    (rounds n : ℕ) (cs : List Char) → n < rounds → read 0 (digits_from rounds n cs) ≡ read n cs
unfolding digits_from
read-digits_from zero n cs h = omega arith
read-digits_from (suc rounds) n cs h = elim (Bool-cases (ltb n 10)) [
  | inl t ↦ rw t (read-digit 0 n cs (ground (arith, t)) ∙ ap (λ m. read m cs) (omega arith))
  | inr f ↦
      let big : 10 ≤ n = ground (arith, f) in
      rw f (
        read-digits_from rounds (n / 10) (digit (n % 10) ∷ cs) (omega arith)
        ∙ read-digit (n / 10) (n % 10) cs (omega arith)
        ∙ ap (λ m. read m cs) (omega arith))
]

read-append : (acc : ℕ) (xs ys : List Char) → read acc (xs ++ ys) ≡ read (read acc xs) ys
read-append acc [] ys = refl
read-append acc (x ∷ xs) ys = elim (Bool-cases (is_comma x)) [
  | inl t ↦ rw t (read-append acc xs ys)
  | inr f ↦ rw f (read-append (acc * 10 + digit_value x) xs ys)
]

read-cons :
    (acc : ℕ) (c : Char) (xs ys : List Char)
    → ((n : ℕ) → read n xs ≡ read n ys)
    → read acc (c ∷ xs) ≡ read acc (c ∷ ys)
read-cons acc c xs ys h = elim (Bool-cases (is_comma c)) [
  | inl t ↦ rw t (h acc)
  | inr f ↦ rw f (h (acc * 10 + digit_value c))
]

read-comma_groups : (acc : ℕ) (cs : List Char) → read acc (comma_groups cs) ≡ read acc cs
unfolding comma_groups
read-comma_groups acc (a ∷ b ∷ c ∷ d ∷ rest) =
    read-cons acc a (b ∷ c ∷ "," ∷ comma_groups (d ∷ rest)) (b ∷ c ∷ d ∷ rest) λ k.
      read-cons k b (c ∷ "," ∷ comma_groups (d ∷ rest)) (c ∷ d ∷ rest) λ l.
        read-cons l c ("," ∷ comma_groups (d ∷ rest)) (d ∷ rest) λ m. read-comma_groups m (d ∷ rest)
read-comma_groups acc [] = refl
read-comma_groups acc (a ∷ []) = refl
read-comma_groups acc (a ∷ b ∷ []) = refl
read-comma_groups acc (a ∷ b ∷ c ∷ []) = refl

take-drop : (n : ℕ) (cs : List Char) → take n cs ++ drop n cs ≡ cs
take-drop zero cs = refl
take-drop (suc n) [] = refl
take-drop (suc n) (c ∷ cs) = ap (λ xs. c ∷ xs) (take-drop n cs)

read-group_thousands : (s : List Char) → read 0 (group_thousands s) ≡ read 0 s
unfolding group_thousands
read-group_thousands s = elim (Bool-cases (leb (length s) 3)) [
  | inl t ↦ rw t refl
  | inr f ↦ elim (Bool-cases (ltb 0 (length s % 3))) [
    | inl t ↦
        let k = length s % 3 in
        rw (f, t)
          (read-append 0 (take k s) ("," ∷ comma_groups (drop k s))
            ∙ read-comma_groups (read 0 (take k s)) (drop k s)
            ∙ sym (read-append 0 (take k s) (drop k s))
            ∙ ap (read 0) (take-drop k s))
    | inr g ↦ rw (f, g) (read-comma_groups 0 s)
  ]
]

-- An amount that is not negative is printed as the whole number of rupees in it: the digits of the
-- text, read in base ten over its commas, give the number of paise divided by a hundred.
pub format_rupees-read : (paise : ℕ) → read 0 (format_rupees (pos paise)) ≡ paise / 100
unfolding format_rupees format_int decimal
format_rupees-read paise =
    read-group_thousands (decimal (paise / 100))
    ∙ read-digits_from (suc (paise / 100)) (paise / 100) [] (omega arith)
