-- ===== src/Db/Query/Grant.antt =====
-- kernel/db/query.c: the statements GRANT and REVOKE, over the capabilities of
-- kernel/cap/capability.c. Fuel: a round of the loop over the rights reads at least one character.
use Prim.Native.Nat.{bit_or}
use vault_os.Prelude.{
  ℕ, zero, suc, ◌+◌, ◌<◌, ◌≤◌, List, [], ◌∷◌, Option, some, Bool, true, false, if◌then◌else◌,
  length, ◌≡◌, refl, ap, sym, ◌∙◌, arith, Bool-cases, inl, inr,
}
use vault_os.ErrorCode.{ErrorCode}
use vault_os.Strings.{same_text, strtou64}
use vault_os.Cap.Table.{ObjectType}
use vault_os.Cap.Table
use vault_os.Cap.{CapState, cap_all, create, revoke}
use vault_os.Db.Query.{TokenType, Parser, max_text, next_token}
use vault_os.Db.Query.Tokens.{next_token-Progress}
use vault_os.Db.Query.Execute.{is_comma}

-- The words of the rights.
abbrev pub text_read : List ℕ
text_read = 82 ∷ 69 ∷ 65 ∷ 68 ∷ []

abbrev pub text_write : List ℕ
text_write = 87 ∷ 82 ∷ 73 ∷ 84 ∷ 69 ∷ []

abbrev pub text_all : List ℕ
text_all = 65 ∷ 76 ∷ 76 ∷ []

-- The tokens at which the loop goes on.
unfoldable pub is_right : TokenType → Bool
is_right TokenType.tok_read = true
is_right TokenType.tok_write = true
is_right TokenType.tok_all = true
is_right TokenType.tok_ident = true
is_right t = false

unfoldable pub is_number : TokenType → Bool
is_number TokenType.tok_number = true
is_number t = false

unfoldable pub is_on : TokenType → Bool
is_on TokenType.tok_on = true
is_on t = false

unfoldable pub is_to : TokenType → Bool
is_to TokenType.tok_to = true
is_to t = false

-- The rights with those of one word.
unfoldable pub named_right : List ℕ → ℕ → ℕ
named_right word rights =
    if same_text word text_read
    then bit_or rights 1
    else if same_text word text_write
    then bit_or rights 2
    else if same_text word text_all
    then cap_all
    else rights

unfoldable pub right_of : TokenType → List ℕ → ℕ → ℕ
right_of TokenType.tok_read word rights = bit_or rights 1
right_of TokenType.tok_write word rights =
    if same_text word text_read then bit_or rights 1 else bit_or rights 2
right_of TokenType.tok_all word rights =
    if same_text word text_read
    then bit_or rights 1
    else if same_text word text_write
    then bit_or rights 2
    else cap_all
right_of t word rights = named_right word rights

-- The loop over the rights.
unfoldable pub parse_rights : ℕ → ℕ → Parser → ℕ × Parser
parse_rights zero rights p = (rights, p)
parse_rights (suc fuel) rights p =
    let with_it = right_of p.token_type p.value rights in
    let p' = next_token p in
    let rest = parse_rights fuel with_it (next_token p') in
    if is_right p.token_type
    then if is_comma p'.token_type then rest else (with_it, p')
    else (rights, p)

-- `exec_grant` behind the rights: `ON` an object `TO` a process. The process that asks is not looked at.
module _ (seal : List ℕ → List ℕ) (now : ℕ) where
  unfoldable pub grant_to : ℕ → ℕ → ℕ → CapState → ErrorCode × CapState
  grant_to rights object_id target_pid s =
      let made = create seal now object_id ObjectType.table_row target_pid rights 0 s in
      (ErrorCode.ok, record made.1 { table = (Table.insert made.0 (made.1).table).1 })

  unfoldable pub grant_object : ℕ → Parser → CapState → ErrorCode × CapState
  grant_object rights p s =
      let object_id = (strtou64 p.value 10).0 in
      let p1 = next_token p in
      let p2 = next_token p1 in
      if is_number p.token_type
      then if is_to p1.token_type
        then if is_number p2.token_type
          then grant_to rights object_id (strtou64 p2.value 10).0 s
          else (ErrorCode.syntax, s)
        else (ErrorCode.syntax, s)
      else (ErrorCode.syntax, s)

  unfoldable pub exec_grant : ℕ → Parser → CapState → ErrorCode × CapState
  exec_grant pid p s =
      let r = parse_rights (length p.input + 1) 0 p in
      if is_on (r.1).token_type then grant_object r.0 (next_token r.1) s else (ErrorCode.syntax, s)

-- `exec_revoke`, with the fuel of the cascade.
unfoldable pub exec_revoke : ℕ → ℕ → Parser → CapState → Option (ErrorCode × CapState)
exec_revoke fuel pid p s =
    if is_number p.token_type
    then revoke fuel pid (strtou64 p.value 10).0 s
    else some (ErrorCode.syntax, s)

parse_rights-stop :
    (fuel rights : ℕ) (p : Parser)
    → is_right p.token_type ≡ false
    → parse_rights fuel rights p ≡ (rights, p)
unfolding parse_rights
parse_rights-stop zero rights p e = refl
parse_rights-stop (suc fuel) rights p e = rw e refl

end_no_right : (t : TokenType) → t ≡ TokenType.tok_eof → is_right t ≡ false
unfolding is_right
end_no_right t e = ap is_right e

end_no_comma : (t : TokenType) → t ≡ TokenType.tok_eof → is_comma t ≡ false
unfolding is_comma
end_no_comma t e = ap is_comma e

-- More fuel than there are characters changes nothing.
pub parse_rights-enough :
    (fuel rights : ℕ) (p : Parser)
    → length p.value ≤ max_text
    → length p.input < fuel
    → parse_rights (suc fuel) rights p ≡ parse_rights fuel rights p
unfolding parse_rights
parse_rights-enough zero rights p v h = absurd (omega arith)
parse_rights-enough (suc fuel) rights p v h =
    let p' = next_token p in
    let q = next_token p' in
    let with_it = right_of p.token_type p.value rights in
    let one = next_token-Progress p v in
    let two = next_token-Progress p' one.fits in
    elim (Bool-cases (is_right p.token_type)) [
      | inr e ↦ rw e refl
      | inl e ↦ elim (Bool-cases (is_comma p'.token_type)) [
        | inr f ↦ rw (e, f) refl
        | inl f ↦
            let rest : parse_rights (suc fuel) with_it q ≡ parse_rights fuel with_it q =
              elim one.ahead [
                | inl end ↦ absurd (
                    let no = end_no_comma p'.token_type end in
                    let both : true ≡ false = sym f ∙ no in cc)
                | inr less ↦ elim two.ahead [
                  | inl end ↦
                      let no = end_no_right q.token_type end in
                      parse_rights-stop (suc fuel) with_it q no
                      ∙ sym (parse_rights-stop fuel with_it q no)
                  | inr fewer ↦ parse_rights-enough fuel with_it q two.fits (omega arith)
                ]
              ] in
            rw (e, f) rest
      ]
    ]
