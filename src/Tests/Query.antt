-- ===== src/Tests/Query.antt =====
-- kernel/db/query.c on the conditions of a statement.
use vault_os.Prelude.{ℕ, List, [], ◌∷◌, ◌≡◌, refl}
use vault_os.Strings.{
  isdigit, isalpha, isalnum, isspace, toupper, strcasecmp, same_text, strtou64, base_of,
  has_hex_prefix, skip_spaces, read_digits, digit_value,
}
use vault_os.Db.Record.{u64, str}
use vault_os.Db.Query.{
  TokenType, Parser, keywords, keyword_among, check_keyword, skip_whitespace, read_while,
  skip_quote, string_token, number_token, word_token, plain_token, token_at, token_from, next_token,
}
use vault_os.Db.Query.Where.{
  CmpOp, parse_where, parse_conds, with_value, value_of, parse_op, op_of, is_ident, is_and,
  is_where,
}

-- WHERE name >= 'a b' AND x=7 z
abbrev text : List ℕ
text =
    110 ∷ 97 ∷ 109 ∷ 101 ∷ 32 ∷ 62 ∷ 61 ∷ 32 ∷ 39 ∷ 97 ∷ 32 ∷ 98 ∷ 39 ∷ 32 ∷ 65 ∷ 78 ∷ 68 ∷ 32 ∷ 120
    ∷ 61 ∷ 55 ∷ 32 ∷ 122 ∷ []

abbrev start : Parser
start = record { input = text; token_type = TokenType.tok_where; value = [] }

reads_conditions :
    (parse_where start).0
    ≡ record {
      column = 110 ∷ 97 ∷ 109 ∷ 101 ∷ [];
      op = CmpOp.cmp_ge;
      value = str (97 ∷ 32 ∷ 98 ∷ []);
    }
      ∷ record { column = 120 ∷ []; op = CmpOp.cmp_eq; value = u64 7 }
      ∷ []
unfolding parse_where parse_conds with_value value_of parse_op op_of is_ident is_and is_where
    keywords keyword_among check_keyword skip_whitespace read_while skip_quote string_token
    number_token word_token plain_token token_at token_from next_token isdigit isalpha isalnum
    isspace toupper strcasecmp same_text strtou64 base_of has_hex_prefix skip_spaces read_digits
    digit_value
reads_conditions = refl
