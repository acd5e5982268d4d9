-- ===== src/Db/Query.antt =====
-- kernel/db/query.c: the query language. A parser holds the characters that it has not read yet;
-- `value` is the text of the current token, which tokens without a text leave as it was.
pub mod Tokens
pub mod Where
pub mod Select
pub mod Execute
pub mod Change
pub mod Grant
pub mod Add
use vault_os.Prelude.{
  ℕ, zero, suc, ◌+◌, ◌-◌, List, [], ◌∷◌, ◌++◌, Option, none, some, Bool, true, false, not, ◌&&◌,
  ◌||◌, if◌then◌else◌, ◌==◌, ltb, leb, length, get_or, take, drop,
}
use vault_os.Strings.{isdigit, isalpha, isalnum, isspace, strcmp, same_text, strtou64}
use vault_os.Db.Record.{Field, u64, str, bool, Row}
use vault_os.Db.Engine.{Column, Schema}

-- `token_type_t`
pub data TokenType : Type 0 where
  tok_select tok_insert tok_into tok_delete tok_update : TokenType
  tok_from tok_where tok_and tok_set tok_values : TokenType
  tok_show tok_tables tok_describe : TokenType
  tok_grant tok_revoke tok_on tok_to : TokenType
  tok_read tok_write tok_all : TokenType
  tok_star tok_comma tok_lparen tok_rparen : TokenType
  tok_eq tok_neq tok_lt tok_gt tok_le tok_ge : TokenType
  tok_ident tok_string tok_number : TokenType
  tok_eof tok_error : TokenType

-- `parser_t`, with `token_t` in it.
pub record Parser : Type 0 where
  pub input : List ℕ
  pub token_type : TokenType
  pub value : List ℕ

-- `MAX_STR_LEN`, `MAX_COLUMN_NAME`, `MAX_WHERE_CONDS`
abbrev pub max_text : ℕ
max_text = 255

abbrev pub max_column_name : ℕ
max_column_name = 64

abbrev pub max_where_conds : ℕ
max_where_conds = 8

-- The words of `check_keyword`, in its order.
unfoldable pub keywords : List (List ℕ × TokenType)
keywords =
    (83 ∷ 69 ∷ 76 ∷ 69 ∷ 67 ∷ 84 ∷ [], TokenType.tok_select)
    ∷ (73 ∷ 78 ∷ 83 ∷ 69 ∷ 82 ∷ 84 ∷ [], TokenType.tok_insert)
    ∷ (73 ∷ 78 ∷ 84 ∷ 79 ∷ [], TokenType.tok_into)
    ∷ (68 ∷ 69 ∷ 76 ∷ 69 ∷ 84 ∷ 69 ∷ [], TokenType.tok_delete)
    ∷ (85 ∷ 80 ∷ 68 ∷ 65 ∷ 84 ∷ 69 ∷ [], TokenType.tok_update)
    ∷ (70 ∷ 82 ∷ 79 ∷ 77 ∷ [], TokenType.tok_from)
    ∷ (87 ∷ 72 ∷ 69 ∷ 82 ∷ 69 ∷ [], TokenType.tok_where)
    ∷ (65 ∷ 78 ∷ 68 ∷ [], TokenType.tok_and)
    ∷ (83 ∷ 69 ∷ 84 ∷ [], TokenType.tok_set)
    ∷ (86 ∷ 65 ∷ 76 ∷ 85 ∷ 69 ∷ 83 ∷ [], TokenType.tok_values)
    ∷ (83 ∷ 72 ∷ 79 ∷ 87 ∷ [], TokenType.tok_show)
    ∷ (84 ∷ 65 ∷ 66 ∷ 76 ∷ 69 ∷ 83 ∷ [], TokenType.tok_tables)
    ∷ (68 ∷ 69 ∷ 83 ∷ 67 ∷ 82 ∷ 73 ∷ 66 ∷ 69 ∷ [], TokenType.tok_describe)
    ∷ (71 ∷ 82 ∷ 65 ∷ 78 ∷ 84 ∷ [], TokenType.tok_grant)
    ∷ (82 ∷ 69 ∷ 86 ∷ 79 ∷ 75 ∷ 69 ∷ [], TokenType.tok_revoke)
    ∷ (79 ∷ 78 ∷ [], TokenType.tok_on)
    ∷ (84 ∷ 79 ∷ [], TokenType.tok_to)
    ∷ (82 ∷ 69 ∷ 65 ∷ 68 ∷ [], TokenType.tok_read)
    ∷ (87 ∷ 82 ∷ 73 ∷ 84 ∷ 69 ∷ [], TokenType.tok_write)
    ∷ (65 ∷ 76 ∷ 76 ∷ [], TokenType.tok_all)
    ∷ []

unfoldable pub keyword_among : List (List ℕ × TokenType) → List ℕ → TokenType
keyword_among [] word = TokenType.tok_ident
keyword_among ((k, t) ∷ ks) word =
    let rest = keyword_among ks word in if same_text word k then t else rest

unfoldable pub check_keyword : List ℕ → TokenType
check_keyword word = keyword_among keywords word

-- `skip_whitespace`
unfoldable pub skip_whitespace : List ℕ → List ℕ
skip_whitespace [] = []
skip_whitespace (c ∷ cs) = let rest = skip_whitespace cs in if isspace c then rest else c ∷ cs

-- A loop that reads at most `n` characters that pass a test: these, and the rest.
unfoldable pub read_while : (ℕ → Bool) → ℕ → List ℕ → List ℕ × List ℕ
read_while test zero cs = ([], cs)
read_while test (suc n) [] = ([], [])
read_while test (suc n) (c ∷ cs) =
    let rest = read_while test n cs in if test c then (c ∷ rest.0, rest.1) else ([], c ∷ cs)

-- `if (p->input[p->pos] == '\\'') p->pos++`
unfoldable pub skip_quote : List ℕ → List ℕ
skip_quote [] = []
skip_quote (c ∷ cs) = if c == 39 then cs else c ∷ cs

-- The branches of `next_token` for a string, a number, and a name.
unfoldable pub string_token : List ℕ → Parser
string_token cs =
    let r = read_while (λ c. not (c == 39)) max_text cs in
    record { input = skip_quote r.1; token_type = TokenType.tok_string; value = r.0 }

unfoldable pub number_token : List ℕ → Parser
number_token cs =
    let r = read_while isdigit 20 cs in
    record { input = r.1; token_type = TokenType.tok_number; value = r.0 }

unfoldable pub word_token : List ℕ → Parser
word_token cs =
    let r = read_while (λ c. isalnum c || c == 95) max_text cs in
    record { input = r.1; token_type = check_keyword r.0; value = r.0 }

-- A token that leaves the text.
unfoldable pub plain_token : TokenType → List ℕ → List ℕ → Parser
plain_token t value rest = record { input = rest; token_type = t; value = value }

-- The rest of `next_token` from its first character that is no space.
unfoldable pub token_at : List ℕ → ℕ → List ℕ → Parser
token_at value c cs =
    let followed = λ (d : ℕ). get_or cs 0 0 == d in
    let behind = λ (n : ℕ). drop n cs in
    if c == 42
    then plain_token TokenType.tok_star (42 ∷ []) cs
    else if c == 44
    then plain_token TokenType.tok_comma value cs
    else if c == 40
    then plain_token TokenType.tok_lparen value cs
    else if c == 41
    then plain_token TokenType.tok_rparen value cs
    else if c == 61
    then plain_token TokenType.tok_eq value cs
    else if c == 33 && followed 61
    then plain_token TokenType.tok_neq value (behind 1)
    else if c == 60 && followed 61
    then plain_token TokenType.tok_le value (behind 1)
    else if c == 62 && followed 61
    then plain_token TokenType.tok_ge value (behind 1)
    else if c == 60
    then plain_token TokenType.tok_lt value cs
    else if c == 62
    then plain_token TokenType.tok_gt value cs
    else if c == 39
    then string_token cs
    else if isdigit c
    then number_token (c ∷ cs)
    else if isalpha c || c == 95
    then word_token (c ∷ cs)
    else plain_token TokenType.tok_error value cs

-- `next_token` behind the spaces, and the whole of it.
unfoldable pub token_from : List ℕ → List ℕ → Parser
token_from value [] = plain_token TokenType.tok_eof value []
token_from value (c ∷ cs) = token_at value c cs

unfoldable pub next_token : Parser → Parser
next_token p = token_from p.value (skip_whitespace p.input)
