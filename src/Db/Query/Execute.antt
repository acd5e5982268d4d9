-- ===== src/Db/Query/Execute.antt =====
-- kernel/db/query.c: the statement SELECT, from its tokens to its rows. Fuel: a round of the loop
-- over the columns reads at least one character, so one more round than there are characters is
-- enough.
use vault_os.Prelude.{
  ℕ, zero, suc, ◌+◌, ◌<◌, ◌≤◌, List, [], ◌∷◌, Option, none, some, Bool, true, false, if◌then◌else◌,
  length, ◌≡◌, refl, ap, sym, ◌∙◌, arith, Bool-cases, inl, inr,
}
use vault_os.ErrorCode.{ErrorCode}
use vault_os.Strings.{same_text}
use vault_os.Crypto.Aes.{Hardware}
use vault_os.Db.Engine.{Table, Database}
use vault_os.Db.Query.{TokenType, Parser, max_text, next_token}
use vault_os.Db.Query.Tokens.{next_token-Progress}
use vault_os.Db.Query.Where.{parse_where, is_ident}
use vault_os.Db.Query.Select.{Results, result_create, select_rows}

-- `db_get_schema`: the first table of that name.
unfoldable pub get_schema : List Table → List ℕ → Option Table
get_schema [] name = none
get_schema (tb ∷ tbs) name =
    let rest = get_schema tbs name in if same_text tb.schema.name name then some tb else rest

unfoldable pub is_star : TokenType → Bool
is_star TokenType.tok_star = true
is_star t = false

unfoldable pub is_comma : TokenType → Bool
is_comma TokenType.tok_comma = true
is_comma t = false

unfoldable pub is_from : TokenType → Bool
is_from TokenType.tok_from = true
is_from t = false

-- The loop of `exec_select` over the column list.
unfoldable pub skip_columns : ℕ → Parser → Parser
skip_columns zero p = p
skip_columns (suc fuel) p =
    let p' = next_token p in
    let rest = skip_columns fuel (next_token p') in
    if is_ident p.token_type then if is_comma p'.token_type then rest else p' else p

unfoldable pub select_list : Parser → Parser
select_list p = if is_star p.token_type then next_token p else skip_columns (length p.input + 1) p

module _ (aesni : Bool) (hw : Hardware) (memory : Bool) (room : ℕ → Bool) where
  -- `exec_select` from the name of the table on.
  unfoldable pub select_from : Database → Parser → ErrorCode × Results
  select_from db p =
      if is_ident p.token_type
      then (elim (get_schema db.tables p.value) [
        | none ↦ (ErrorCode.notfound, result_create 0)
        | some tb ↦
            (ErrorCode.ok, select_rows aesni hw memory room db tb (parse_where (next_token p)).0)
      ])
      else (ErrorCode.syntax, result_create 0)

  -- `exec_select`, where the memory of its result is given.
  unfoldable pub exec_select : Database → Parser → ErrorCode × Results
  exec_select db p =
      let q = select_list p in
      if is_from q.token_type
      then select_from db (next_token q)
      else (ErrorCode.syntax, result_create 0)

-- A loop that has stopped stays so, whatever the fuel.
skip_columns-stop :
    (fuel : ℕ) (p : Parser) → is_ident p.token_type ≡ false → skip_columns fuel p ≡ p
unfolding skip_columns
skip_columns-stop zero p e = refl
skip_columns-stop (suc fuel) p e = rw e refl

not_name : (t : TokenType) → t ≡ TokenType.tok_eof → is_ident t ≡ false
unfolding is_ident
not_name t e = ap is_ident e

not_comma : (t : TokenType) → t ≡ TokenType.tok_eof → is_comma t ≡ false
unfolding is_comma
not_comma t e = ap is_comma e

-- More fuel than there are characters changes nothing.
pub skip_columns-enough :
    (fuel : ℕ) (p : Parser)
    → length p.value ≤ max_text
    → length p.input < fuel
    → skip_columns (suc fuel) p ≡ skip_columns fuel p
unfolding skip_columns
skip_columns-enough zero p v h = absurd (omega arith)
skip_columns-enough (suc fuel) p v h =
    let p' = next_token p in
    let q = next_token p' in
    let one = next_token-Progress p v in
    let two = next_token-Progress p' one.fits in
    elim (Bool-cases (is_ident p.token_type)) [
      | inr e ↦ rw e refl
      | inl e ↦ elim (Bool-cases (is_comma p'.token_type)) [
        | inr f ↦ rw (e, f) refl
        | inl f ↦
            let rest : skip_columns (suc fuel) q ≡ skip_columns fuel q = elim one.ahead [
              | inl end ↦ absurd (
                  let no = not_comma p'.token_type end in
                  let both : true ≡ false = sym f ∙ no in cc)
              | inr less ↦ elim two.ahead [
                | inl end ↦
                    let no = not_name q.token_type end in
                    skip_columns-stop (suc fuel) q no ∙ sym (skip_columns-stop fuel q no)
                | inr fewer ↦ skip_columns-enough fuel q two.fits (omega arith)
              ]
            ] in
            rw (e, f) rest
      ]
    ]
