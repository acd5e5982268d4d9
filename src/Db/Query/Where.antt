-- ===== src/Db/Query/Where.antt =====
-- kernel/db/query.c: conditions, as the parser reads them and as they are evaluated on a record.
use vault_os.Prelude.{
  ℕ, zero, suc, ◌-◌, List, [], ◌∷◌, Option, none, some, Bool, true, false, not, if◌then◌else◌, ◌==◌,
  ltb, leb, get_or, take,
}
use vault_os.Strings.{strcmp, same_text, strtou64}
use vault_os.Db.Record.{Field, u64, str, bool, Row}
use vault_os.Db.Engine.{Column, Schema}
use vault_os.Db.Query.{TokenType, Parser, max_text, max_column_name, max_where_conds, next_token}

-- `cmp_op_t`
pub data CmpOp : Type 0 where
  cmp_eq cmp_neq cmp_lt cmp_gt cmp_le cmp_ge cmp_like : CmpOp

-- `where_cond_t`
pub record Condition : Type 0 where
  pub column : List ℕ
  pub op : CmpOp
  pub value : Field

-- The switches of `match_field`, on two numbers or on what `strcmp` subtracts.
unfoldable pub compares : CmpOp → ℕ → ℕ → Bool
compares CmpOp.cmp_eq x y = x == y
compares CmpOp.cmp_neq x y = not (x == y)
compares CmpOp.cmp_lt x y = ltb x y
compares CmpOp.cmp_gt x y = ltb y x
compares CmpOp.cmp_le x y = leb x y
compares CmpOp.cmp_ge x y = leb y x
compares CmpOp.cmp_like x y = false

-- The switch for a number and a text.
unfoldable pub compares_text : CmpOp → ℕ → ℕ → Bool
compares_text CmpOp.cmp_eq x y = x == y
compares_text CmpOp.cmp_neq x y = not (x == y)
compares_text CmpOp.cmp_lt x y = false
compares_text CmpOp.cmp_gt x y = false
compares_text CmpOp.cmp_le x y = false
compares_text CmpOp.cmp_ge x y = false
compares_text CmpOp.cmp_like x y = false

unfoldable pub same_bool : Bool → Bool → Bool
same_bool true b = b
same_bool false b = not b

-- `match_field`
unfoldable pub match_field : Field → CmpOp → Field → Bool
match_field (str s) op (str t) = let bytes = strcmp s t in compares op bytes.0 bytes.1
match_field (u64 x) op (u64 y) = compares op x y
match_field (bool b) op (bool c) = same_bool b c
match_field (u64 x) op (str t) = compares_text op x (strtou64 t 10).0
match_field field op value = false

-- `find_column_index`, from the column `i` on; `none` is the result -1.
unfoldable pub find_column : ℕ → List Column → List ℕ → Option ℕ
find_column i [] name = none
find_column i (c ∷ cs) name =
    let rest = find_column (suc i) cs name in if same_text c.name name then some i else rest

unfoldable pub find_column_index : Schema → List ℕ → Option ℕ
find_column_index schema name = find_column 0 schema.columns name

-- One round of `record_matches`. Behind the record's fields stand zeros, which are a number 0.
unfoldable pub holds_at : Row → Condition → Option ℕ → Bool
holds_at rec c none = false
holds_at rec c (some i) = match_field (get_or rec.fields i (u64 0)) c.op c.value

-- `record_matches`
unfoldable pub record_matches : Row → Schema → List Condition → Bool
record_matches rec schema [] = true
record_matches rec schema (c ∷ cs) =
    let rest = record_matches rec schema cs in
    if holds_at rec c (find_column_index schema c.column) then rest else false

-- `parse_op`
unfoldable pub op_of : TokenType → Option CmpOp
op_of TokenType.tok_eq = some CmpOp.cmp_eq
op_of TokenType.tok_neq = some CmpOp.cmp_neq
op_of TokenType.tok_lt = some CmpOp.cmp_lt
op_of TokenType.tok_gt = some CmpOp.cmp_gt
op_of TokenType.tok_le = some CmpOp.cmp_le
op_of TokenType.tok_ge = some CmpOp.cmp_ge
op_of t = none

unfoldable pub parse_op : Parser → CmpOp × Parser
parse_op p = elim (op_of p.token_type) [ none ↦ (CmpOp.cmp_eq, p) | some op ↦ (op, next_token p) ]

-- The value of a condition, if the token is one.
unfoldable pub value_of : TokenType → List ℕ → Option Field
value_of TokenType.tok_string text = some (str (take max_text text))
value_of TokenType.tok_number text = some (u64 (strtou64 text 10).0)
value_of t text = none

unfoldable pub is_ident : TokenType → Bool
is_ident TokenType.tok_ident = true
is_ident t = false

unfoldable pub is_and : TokenType → Bool
is_and TokenType.tok_and = true
is_and t = false

unfoldable pub is_where : TokenType → Bool
is_where TokenType.tok_where = true
is_where t = false

-- The end of a round of `parse_where`: the value, and what follows it.
unfoldable pub with_value :
    (Parser → List Condition × Parser) → List ℕ → CmpOp × Parser → List Condition × Parser
with_value recurse column (op, p) = elim (value_of p.token_type p.value) [
  | none ↦ ([], p)
  | some v ↦
      let c : Condition = record { column = column; op = op; value = v } in
      let p' = next_token p in
      let more = recurse (next_token p') in
      if is_and p'.token_type then (c ∷ more.0, more.1) else (c ∷ [], p')
]

-- Its loop, for at most `n` more conditions.
unfoldable pub parse_conds : ℕ → Parser → List Condition × Parser
parse_conds zero p = ([], p)
parse_conds (suc n) p =
    let round =
      with_value (λ q. parse_conds n q) (take (max_column_name - 1) p.value)
        (parse_op (next_token p)) in
    if is_ident p.token_type then round else ([], p)

-- `parse_where`
unfoldable pub parse_where : Parser → List Condition × Parser
parse_where p =
    if is_where p.token_type then parse_conds max_where_conds (next_token p) else ([], p)
