-- ===== src/Strings.antt =====
-- kernel/lib/string.c: tests on characters, comparison and numbers. A string is its characters
-- before the NUL; a character is its byte.
use vault_os.Prelude.{
  ℕ, ◌+◌, ◌-◌, ◌*◌, ◌%◌, ◌^◌, List, [], ◌∷◌, Bool, ◌&&◌, ◌||◌, not, if◌then◌else◌, ◌==◌, ltb, leb,
  get_or, drop,
}

-- `toupper`, `tolower`
unfoldable pub toupper : ℕ → ℕ
toupper c = if leb 97 c && leb c 122 then c - 32 else c

unfoldable pub tolower : ℕ → ℕ
tolower c = if leb 65 c && leb c 90 then c + 32 else c

-- `isdigit`, `isalpha`, `isalnum`, `isspace`
unfoldable pub isdigit : ℕ → Bool
isdigit c = leb 48 c && leb c 57

unfoldable pub isalpha : ℕ → Bool
isalpha c = leb 97 c && leb c 122 || leb 65 c && leb c 90

unfoldable pub isalnum : ℕ → Bool
isalnum c = isdigit c || isalpha c

unfoldable pub isspace : ℕ → Bool
isspace c = c == 32 || c == 9 || c == 10 || c == 13

-- `strcmp`, `strcasecmp`: the two bytes whose difference is the result.
unfoldable pub strcmp : List ℕ → List ℕ → ℕ × ℕ
strcmp [] ys = (0, get_or ys 0 0)
strcmp (a ∷ xs) [] = (a, 0)
strcmp (a ∷ xs) (b ∷ ys) =
    let rest = strcmp xs ys in if a == b && not (a == 0) then rest else (a, b)

unfoldable pub strcasecmp : List ℕ → List ℕ → ℕ × ℕ
strcasecmp [] ys = (0, toupper (get_or ys 0 0))
strcasecmp (a ∷ xs) [] = (toupper a, 0)
strcasecmp (a ∷ xs) (b ∷ ys) =
    let rest = strcasecmp xs ys in
    if toupper a == toupper b && not (a == 0) then rest else (toupper a, toupper b)

-- Whether `strcasecmp` returns 0.
unfoldable pub same_text : List ℕ → List ℕ → Bool
same_text xs ys = let (x, y) = strcasecmp xs ys in x == y

-- `while (isspace(*s)) s++`
unfoldable pub skip_spaces : List ℕ → List ℕ
skip_spaces [] = []
skip_spaces (c ∷ cs) = let rest = skip_spaces cs in if isspace c then rest else c ∷ cs

-- The value of a digit of `strtou64`, and 255 for what is no digit.
unfoldable pub digit_value : ℕ → ℕ
digit_value c =
    if isdigit c
    then c - 48
    else if leb 97 c && leb c 102
    then c - 97 + 10
    else if leb 65 c && leb c 70
    then c - 65 + 10
    else 255

-- Its loop, from `result` on: the number, and the characters behind it.
unfoldable pub read_digits : ℕ → ℕ → List ℕ → ℕ × List ℕ
read_digits base result [] = (result, [])
read_digits base result (c ∷ cs) =
    let rest = read_digits base ((result * base + digit_value c) % 2 ^ 64) cs in
    if ltb (digit_value c) base then rest else (result, c ∷ cs)

-- The base that `strtou64` uses, and where the digits begin.
unfoldable pub has_hex_prefix : List ℕ → Bool
has_hex_prefix s = get_or s 0 0 == 48 && (get_or s 1 0 == 120 || get_or s 1 0 == 88)

unfoldable pub base_of : ℕ → List ℕ → ℕ × List ℕ
base_of base s =
    if base == 0
    then if has_hex_prefix s
      then (16, drop 2 s)
      else if get_or s 0 0 == 48
      then (8, drop 1 s)
      else (10, s)
    else if base == 16 && has_hex_prefix s
    then (base, drop 2 s)
    else (base, s)

-- `strtou64`
unfoldable pub strtou64 : List ℕ → ℕ → ℕ × List ℕ
strtou64 s base = let start = base_of base (skip_spaces s) in read_digits start.0 0 start.1
