-- ===== src/Campaign/Rupees.antt =====
-- formatRupees of campaign/manager.go, with strconv.FormatInt for base 10. A text under construction
-- is a list of characters.
use Prim.Native.Char.{Char}
use vasuli.Prelude.{
  ℕ, zero, suc, ℤ, pos, negsuc, ◌/◌, ◌%◌, quot, List, [], ◌∷◌, ◌++◌, ltb, leb, length, take, drop,
  if◌then◌else◌,
}

abbrev pub digit : ℕ → Char
digit zero = "0"
digit (suc zero) = "1"
digit (suc (suc zero)) = "2"
digit (suc (suc (suc zero))) = "3"
digit (suc (suc (suc (suc zero)))) = "4"
digit (suc (suc (suc (suc (suc zero))))) = "5"
digit (suc (suc (suc (suc (suc (suc zero)))))) = "6"
digit (suc (suc (suc (suc (suc (suc (suc zero))))))) = "7"
digit (suc (suc (suc (suc (suc (suc (suc (suc zero)))))))) = "8"
digit _ = "9"

-- The decimal digits of `n`, in front of `acc`; `n + 1` rounds are enough.
unfoldable pub digits_from : ℕ → ℕ → List Char → List Char
digits_from zero n acc = acc
digits_from (suc rounds) n acc =
    let rest = digits_from rounds (n / 10) (digit (n % 10) ∷ acc) in
    if ltb n 10 then digit n ∷ acc else rest

unfoldable pub decimal : ℕ → List Char
unfolding digits_from
decimal n = digits_from (suc n) n []

-- strconv.FormatInt(n, 10).
unfoldable pub format_int : ℤ → List Char
unfolding decimal
format_int (pos n) = decimal n
format_int (negsuc n) = "-" ∷ decimal (suc n)

-- The loop of formatRupees from index i, over what is left of the text: three characters, then a
-- comma if more follow. What is left is a multiple of three long.
unfoldable pub comma_groups : List Char → List Char
comma_groups (a ∷ b ∷ c ∷ d ∷ rest) = a ∷ b ∷ c ∷ "," ∷ comma_groups (d ∷ rest)
comma_groups rest = rest

unfoldable pub group_thousands : List Char → List Char
unfolding comma_groups
group_thousands s =
    let n = length s in
    let rem = n % 3 in
    if leb n 3
    then s
    else if ltb 0 rem
    then take rem s ++ "," ∷ comma_groups (drop rem s)
    else comma_groups s

unfoldable pub format_rupees : ℤ → List Char
unfolding format_int group_thousands
format_rupees paise = group_thousands (format_int (quot paise 100))
