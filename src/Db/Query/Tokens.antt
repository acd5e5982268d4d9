-- ===== src/Db/Query/Tokens.antt =====
-- kernel/db/query.c: `next_token` makes progress, and its text fits the token.
use vault_os.Prelude.{
  ℕ, zero, suc, ◌+◌, ◌≤◌, ◌<◌, ◌⊎◌, List, [], ◌∷◌, Bool, true, false, not, ◌&&◌, ◌||◌,
  if◌then◌else◌, ◌==◌, length, get_or, drop, ◌≡◌, refl, ◌∙◌, arith, length-drop, Bool-cases, inl,
  inr,
}
use vault_os.Strings.{isdigit, isalpha, isalnum, isspace}
use vault_os.Db.Query.{
  TokenType, Parser, max_text, skip_whitespace, read_while, skip_quote, string_token, number_token,
  word_token, plain_token, token_at, token_from, next_token,
}

length-skip_whitespace : (cs : List ℕ) → length (skip_whitespace cs) ≤ length cs
unfolding skip_whitespace
length-skip_whitespace [] = omega arith
length-skip_whitespace (c ∷ cs) = elim (Bool-cases (isspace c)) [
  | inl e ↦ rw e (omega (arith, length-skip_whitespace cs))
  | inr e ↦ rw e (omega arith)
]

length-skip_quote : (cs : List ℕ) → length (skip_quote cs) ≤ length cs
unfolding skip_quote
length-skip_quote [] = omega arith
length-skip_quote (c ∷ cs) = elim (Bool-cases (c == 39)) [
  | inl e ↦ rw e (omega arith)
  | inr e ↦ rw e (omega arith)
]

-- What is read is at most `n` characters, and is gone from the input.
read_while-bounds :
    (test : ℕ → Bool) (n : ℕ) (cs : List ℕ)
    → (length (read_while test n cs).0 ≤ n)
      × (length (read_while test n cs).0 + length (read_while test n cs).1 ≡ length cs)
unfolding read_while
read_while-bounds test zero cs = (omega arith, omega arith)
read_while-bounds test (suc n) [] = (omega arith, omega arith)
read_while-bounds test (suc n) (c ∷ cs) =
    let (few, all) = read_while-bounds test n cs in
    elim (Bool-cases (test c)) [
      | inl e ↦ rw e (omega arith, omega arith)
      | inr e ↦ rw e (omega arith, omega arith)
    ]

-- The first character is read where it passes.
read_while-first :
    (test : ℕ → Bool) (n c : ℕ) (cs : List ℕ)
    → test c ≡ true
    → length (read_while test (suc n) (c ∷ cs)).1 ≤ length cs
unfolding read_while
read_while-first test n c cs e = let (few, all) = read_while-bounds test n cs in rw e (omega arith)

-- A token read from `cs` characters and one more: the input is shorter, and the text fits where
-- the text before it did.
record Reads (size : ℕ) (p : Parser) : Type 0 where
  shorter : length p.input ≤ size
  fits : length p.value ≤ max_text

plain-Reads :
    (t : TokenType) (value rest : List ℕ) (size : ℕ)
    → length rest ≤ size
    → length value ≤ max_text
    → Reads size (plain_token t value rest)
unfolding plain_token
plain-Reads t value rest size h v = record { shorter = h; fits = v }

behind-Reads :
    (t : TokenType) (value cs : List ℕ)
    → length value ≤ max_text
    → Reads (length cs) (plain_token t value (drop 1 cs))
behind-Reads t value cs v =
    plain-Reads t value (drop 1 cs) (length cs) (omega (arith, length-drop 1 cs)) v

string-Reads : (cs : List ℕ) → Reads (length cs) (string_token cs)
unfolding string_token
string-Reads cs =
    let (few, all) = read_while-bounds (λ c. not (c == 39)) max_text cs in
    record {
      shorter = omega (arith, length-skip_quote (read_while (λ c. not (c == 39)) max_text cs).1);
      fits = few;
    }

number-Reads : (c : ℕ) (cs : List ℕ) → isdigit c ≡ true → Reads (length cs) (number_token (c ∷ cs))
unfolding number_token
number-Reads c cs e =
    let (few, all) = read_while-bounds isdigit 20 (c ∷ cs) in
    record { shorter = read_while-first isdigit 19 c cs e; fits = omega arith }

some_alnum : (d a u : Bool) → a || u ≡ true → d || a || u ≡ true
some_alnum true a u h = refl
some_alnum false a u h = h

or_assoc : (d a u : Bool) → (d || a) || u ≡ d || a || u
or_assoc true a u = refl
or_assoc false a u = refl

word-Reads :
    (c : ℕ) (cs : List ℕ) → isalpha c || c == 95 ≡ true → Reads (length cs) (word_token (c ∷ cs))
unfolding word_token isalnum
word-Reads c cs e =
    let test = λ (d : ℕ). isalnum d || d == 95 in
    let (few, all) = read_while-bounds test max_text (c ∷ cs) in
    record {
      shorter = read_while-first test 254 c cs (
          or_assoc (isdigit c) (isalpha c) (c == 95)
          ∙ some_alnum (isdigit c) (isalpha c) (c == 95) e);
      fits = few;
    }

-- One of two tokens, by a test.
if-Reads :
    (size : ℕ) (b : Bool) (p q : Parser)
    → (b ≡ true → Reads size p)
    → (b ≡ false → Reads size q)
    → Reads size (if b then p else q)
if-Reads size true p q left right = left refl
if-Reads size false p q left right = right refl

module _ (value : List ℕ) (c : ℕ) (cs : List ℕ) (v : length value ≤ max_text) where
  plain : (t : TokenType) → Reads (length cs) (plain_token t value cs)
  plain t = plain-Reads t value cs (length cs) (omega arith) v

  token_at-Reads : Reads (length cs) (token_at value c cs)
  unfolding token_at
  token_at-Reads =
      if-Reads _ (c == 42) _ _
        (λ e. plain-Reads TokenType.tok_star (42 ∷ []) cs (length cs) (omega arith) (omega arith))
        (λ e.
          if-Reads _ (c == 44) _ _ (λ e. plain TokenType.tok_comma)
            (λ e.
              if-Reads _ (c == 40) _ _ (λ e. plain TokenType.tok_lparen)
                (λ e.
                  if-Reads _ (c == 41) _ _ (λ e. plain TokenType.tok_rparen)
                    (λ e.
                      if-Reads _ (c == 61) _ _ (λ e. plain TokenType.tok_eq)
                        (λ e.
                          if-Reads _ (c == 33 && get_or cs 0 0 == 61) _ _
                            (λ e. behind-Reads TokenType.tok_neq value cs v)
                            (λ e.
                              if-Reads _ (c == 60 && get_or cs 0 0 == 61) _ _
                                (λ e. behind-Reads TokenType.tok_le value cs v)
                                (λ e.
                                  if-Reads _ (c == 62 && get_or cs 0 0 == 61) _ _
                                    (λ e. behind-Reads TokenType.tok_ge value cs v)
                                    (λ e.
                                      if-Reads _ (c == 60) _ _ (λ e. plain TokenType.tok_lt)
                                        (λ e.
                                          if-Reads _ (c == 62) _ _ (λ e. plain TokenType.tok_gt)
                                            (λ e.
                                              if-Reads _ (c == 39) _ _ (λ e. string-Reads cs)
                                                (λ e.
                                                  if-Reads _ (isdigit c) _ _
                                                    (λ digit. number-Reads c cs digit)
                                                    (λ e.
                                                      if-Reads _ (isalpha c || c == 95) _ _
                                                        (λ letter. word-Reads c cs letter)
                                                        (λ e. plain TokenType.tok_error)))))))))))))

-- What `next_token` leaves: the end of the input, or less input than there was; and a text that
-- fits in its token.
pub record Progress (input : List ℕ) (p : Parser) : Type 0 where
  pub ahead : (p.token_type ≡ TokenType.tok_eof) ⊎ (length p.input < length input)
  pub fits : length p.value ≤ max_text

token_from-Progress :
    (value cs input : List ℕ)
    → length cs ≤ length input
    → length value ≤ max_text
    → Progress input (token_from value cs)
unfolding token_from plain_token
token_from-Progress value [] input h v = record { ahead = inl refl; fits = v }
token_from-Progress value (c ∷ cs) input h v =
    let r = token_at-Reads value c cs v in
    record { ahead = inr (let short = r.shorter in omega arith); fits = r.fits }

-- `next_token` says that the input is at its end, or has read at least one character; and a text of
-- at most 255 characters, which fits in its token, is followed by one that does.
pub next_token-Progress : (p : Parser) → length p.value ≤ max_text → Progress p.input (next_token p)
unfolding next_token
next_token-Progress p v =
    token_from-Progress p.value (skip_whitespace p.input) p.input (length-skip_whitespace p.input) v
