-- ===== src/Text.antt =====
-- Python's operations on text, over the code points of ASCII text.
use Prim.Native.Char.{code}
use bothy.Common.{
  ℕ, ◌+◌, ◌-◌, ◌*◌, String, Bool, true, false, List, [], ◌∷◌, ◌==◌, ◌&&◌, ◌||◌, not, leb, map,
  filter, if◌then◌else◌,
}

abbrev pub Chars : Type 0
Chars = List ℕ

abbrev pub codes : String → Chars
codes String.[] = []
codes (String.◌∷◌ c s) = code c ∷ codes s

abbrev pub within : ℕ → ℕ → ℕ → Bool
within lo hi c = leb lo c && leb c hi

unfoldable pub is_space : ℕ → Bool
is_space c = within 9 13 c || within 28 32 c

unfoldable pub is_digit : ℕ → Bool
is_digit c = within b'0' b'9' c

unfoldable pub is_letter : ℕ → Bool
is_letter c = within b'a' b'z' c || within b'A' b'Z' c

unfoldable pub lower_char : ℕ → ℕ
lower_char c = if within b'A' b'Z' c then c + 32 else c

unfoldable pub lower : Chars → Chars
unfolding lower_char
lower = map lower_char

-- drop from the left while the test holds
unfoldable pub lstrip_by : (ℕ → Bool) → Chars → Chars
lstrip_by p [] = []
lstrip_by p (c ∷ cs) = let rest = lstrip_by p cs in if p c then rest else c ∷ cs

unfoldable pub is_nil : Chars → Bool
is_nil [] = true
is_nil (c ∷ cs) = false

unfoldable pub rstrip_by : (ℕ → Bool) → Chars → Chars
unfolding is_nil
rstrip_by p [] = []
rstrip_by p (c ∷ cs) = let rest = rstrip_by p cs in if p c && is_nil rest then [] else c ∷ rest

-- str.strip()
unfoldable pub strip : Chars → Chars
unfolding lstrip_by rstrip_by is_space
strip s = rstrip_by is_space (lstrip_by is_space s)

unfoldable pub all_chars : (ℕ → Bool) → Chars → Bool
all_chars p [] = true
all_chars p (c ∷ cs) = p c && all_chars p cs

-- str.isdigit()
unfoldable pub all_digits : Chars → Bool
unfolding is_nil all_chars is_digit
all_digits s = not (is_nil s) && all_chars is_digit s

-- int() of digits, from what was read before
unfoldable pub int_from : ℕ → Chars → ℕ
int_from acc [] = acc
int_from acc (c ∷ cs) = int_from (acc * 10 + (c - b'0')) cs

unfoldable pub contains_char : ℕ → Chars → Bool
contains_char c [] = false
contains_char c (d ∷ s) = d == c || contains_char c s

unfoldable pub starts_with : ℕ → Chars → Bool
starts_with c [] = false
starts_with c (d ∷ s) = d == c

-- `before, _, after = s.partition(c)`
unfoldable pub before : ℕ → Chars → Chars
before c [] = []
before c (d ∷ s) = let rest = before c s in if d == c then [] else d ∷ rest

unfoldable pub after : ℕ → Chars → Chars
after c [] = []
after c (d ∷ s) = let rest = after c s in if d == c then s else rest

unfoldable pub same_chars : Chars → Chars → Bool
same_chars [] [] = true
same_chars [] (d ∷ t) = false
same_chars (c ∷ s) [] = false
same_chars (c ∷ s) (d ∷ t) = c == d && same_chars s t

-- a character in front of the first part
unfoldable pub push_first : ℕ → List Chars → List Chars
push_first c [] = (c ∷ []) ∷ []
push_first c (part ∷ parts) = (c ∷ part) ∷ parts

-- the pieces between the characters that the test picks
unfoldable pub split_by : (ℕ → Bool) → Chars → List Chars
unfolding push_first
split_by p [] = [] ∷ []
split_by p (d ∷ s) = let rest = split_by p s in if p d then [] ∷ rest else push_first d rest

-- s.split(c)
unfoldable pub split_on : ℕ → Chars → List Chars
split_on c = split_by (λ d. d == c)

-- s.split()
unfoldable pub words : Chars → List Chars
words s = filter (λ word. not (is_nil word)) (split_by is_space s)
