-- ===== src/Prelude/Text.antt =====
-- What the source uses of Python's `str`: the code points of a text, whitespace, `strip`, `lower`
-- on ASCII, `count` of a character, and `str` of a number.
use Prim.Native.Char.{code}
use Prim.Native.Nat.{ℕ, zero, suc, ◌+◌, ◌/◌, ◌%◌}
use Prim.Native.String.{String, ◌++◌}
use mathlib.Core.Path.{◌≡◌, refl}
use mathlib.Core.Logic.{◌↔◌}
use mathlib.Core.Bool.{Bool, true, false, ◌&&◌, ◌||◌}
use mathlib.Core.List.{List, [], ◌∷◌, map, reverse}
use native.Mathlib.Omega.{arith}
use text.Mathlib.Text.{◌==◌ as str_eq}
use bridge_db.Prelude.Tests.{ltb, leb, nat_beq, if◌then◌else◌, Eq, nat_eq}

abbrev pub codes : String → List ℕ
codes String.[] = []
codes (String.◌∷◌ c s) = code c ∷ codes s

module _ {ℓ} {A : Type ℓ} ⦃e : Eq A⦄ where
  abbrev pub list_beq : List A → List A → Bool
  list_beq [] [] = true
  list_beq [] (y ∷ ys) = false
  list_beq (x ∷ xs) [] = false
  list_beq (x ∷ xs) (y ∷ ys) = e.beq x y && list_beq xs ys

  pub list_beq_iff : (xs ys : List A) → (list_beq xs ys ≡ true) ↔ (xs ≡ ys)
  list_beq_iff [] [] = (λ _. refl, λ _. refl)
  list_beq_iff [] (y ∷ ys) = (λ h. cc, λ h. cc)
  list_beq_iff (x ∷ xs) [] = (λ h. cc, λ h. cc)
  list_beq_iff (x ∷ xs) (y ∷ ys) =
      let heads = e.beq_iff x y in
      let tails = list_beq_iff xs ys in
      (λ h. ground (arith, heads, tails), λ h. ground (arith, heads, tails))

instance abbrev pub list_eq {ℓ} : {A : Type ℓ} ⦃e : Eq A⦄ → Eq (List A)
list_eq = record { beq = list_beq; beq_iff = list_beq_iff }

-- str.isspace, one code point
unfoldable pub is_space : ℕ → Bool
is_space c =
    (leb 9 c && leb c 13)
    || (leb 28 c && leb c 32)
    || nat_beq c 0x85
    || nat_beq c 0xa0
    || nat_beq c 0x1680
    || (leb 0x2000 c && leb c 0x200a)
    || nat_beq c 0x2028
    || nat_beq c 0x2029
    || nat_beq c 0x202f
    || nat_beq c 0x205f
    || nat_beq c 0x3000

-- Drops the leading elements that pass the test.
abbrev pub drop_while {ℓ} : {A : Type ℓ} → (A → Bool) → List A → List A
drop_while test [] = []
drop_while test (x ∷ xs) = let rest = drop_while test xs in if test x then rest else x ∷ xs

-- str.strip
unfoldable pub strip : List ℕ → List ℕ
unfolding is_space
strip s = reverse (drop_while is_space (reverse (drop_while is_space s)))

-- str.strip of some characters, on texts
unfoldable pub drop_first : (ℕ → Bool) → String → String
drop_first test String.[] = ""
drop_first test (String.◌∷◌ c s) =
    let rest = drop_first test s in if test (code c) then rest else String.◌∷◌ c s

-- a text without its last characters that pass the test
unfoldable pub drop_last : (ℕ → Bool) → String → String
drop_last test String.[] = ""
drop_last test (String.◌∷◌ c s) =
    let rest = drop_last test s in if test (code c) && str_eq rest "" then "" else String.◌∷◌ c rest

unfoldable pub strip_text : (ℕ → Bool) → String → String
unfolding drop_first drop_last
strip_text test s = drop_last test (drop_first test s)

-- str.lower, on the letters of ASCII
unfoldable pub lower : List ℕ → List ℕ
lower = map (λ c. if leb 65 c && leb c 90 then c + 32 else c)

-- value.count(c), for one character
abbrev pub count_code : ℕ → List ℕ → ℕ
count_code c [] = 0
count_code c (x ∷ xs) = let rest = count_code c xs in if nat_beq x c then suc rest else rest

digit : ℕ → String
digit zero = "0"
digit (suc zero) = "1"
digit (suc (suc zero)) = "2"
digit (suc (suc (suc zero))) = "3"
digit (suc (suc (suc (suc zero)))) = "4"
digit (suc (suc (suc (suc (suc zero))))) = "5"
digit (suc (suc (suc (suc (suc (suc zero)))))) = "6"
digit (suc (suc (suc (suc (suc (suc (suc zero))))))) = "7"
digit (suc (suc (suc (suc (suc (suc (suc (suc zero)))))))) = "8"
digit _ = "9"

decimal : ℕ → ℕ → String
unfolding digit
decimal zero n = ""
decimal (suc fuel) n =
    let higher = decimal fuel (n / 10) ++ digit (n % 10) in if ltb n 10 then digit n else higher

-- str(n): a number has at most n + 1 digits
unfoldable pub str : ℕ → String
unfolding decimal
str n = decimal (suc n) n

str_example : str 4207 ≡ "4207"
unfolding str
str_example = refl
