-- ===== src/Crypto/Sha256/Stream.antt =====
-- kernel/crypto/sha256.c: a message that comes in pieces has the digest of the message.
use mathlib.Core.Path.{subst}
use vault_os.Prelude.{
  ℕ, ◌+◌, ◌-◌, ◌*◌, ◌/◌, ◌%◌, ◌^◌, ◌≤◌, ◌<◌, List, [], ◌∷◌, ◌++◌, ◌≡◌, refl, ap, sym, ◌∙◌, arith,
  length, take, drop, if◌then◌else◌, ◌==◌, ltb, length-append, length-take, length-drop,
  take-append-drop, append_assoc, ne→==, ==→eq, ltb→lt, ltb→le, Bool-cases, inl, inr,
}
use vault_os.Crypto.Sha256.{Context, transform, initial, init, write, absorb, update}
use vault_os.Crypto.Sha256.Buffer.{Holds, write-Holds, empty-Holds, full-Holds}
use vault_os.Crypto.Sha256.Blocks.{
  blocks, blocks-append, blocks-suc, blocks-take, full_blocks-blocks,
}

-- What a context has taken in: whole blocks `done`, and `rest` in its buffer.
pub record Absorbed (ctx : Context) (message : List ℕ) : Type 0 where
  pub full : ℕ
  pub done : List ℕ
  pub rest : List ℕ
  pub split : message ≡ done ++ rest
  pub whole : length done ≡ full * 64
  pub part : length rest < 64
  pub ran : ctx.state ≡ blocks full initial done
  pub held : Holds ctx.buffer rest
  pub counted : ctx.count ≡ length message % 2 ^ 64

pub init-Absorbed : Absorbed init []
unfolding init blocks
init-Absorbed = record {
  full = 0;
  done = [];
  rest = [];
  split = refl;
  whole = refl;
  part = omega arith;
  ran = refl;
  held = (refl, refl);
  counted = refl;
}

-- `absorb` on data behind whole blocks.
module _ (message done data' buffer : List ℕ) (full count : ℕ) (split : message ≡ done ++ data')
    (whole : length done ≡ full * 64) (room : length buffer ≡ 64)
    (counted : count ≡ length message % 2 ^ 64) where
  taken : ℕ
  taken = length data' / 64

  stored :
      (rest : List ℕ)
      → length rest < 64
      → Holds (if length rest == 0 then buffer else write buffer 0 rest) rest
  stored [] h = empty-Holds buffer room
  stored (x ∷ rest) h =
      rw (ne→== (length {A = ℕ} (x ∷ rest)) 0 (λ e. omega arith))
        (write-Holds buffer [] (x ∷ rest) 0 refl (empty-Holds buffer room) (omega arith))

  absorb-Absorbed : Absorbed (absorb count (blocks full initial done) buffer data') message
  unfolding absorb taken
  absorb-Absorbed =
      let t = take (taken * 64) data' in
      let d = drop (taken * 64) data' in
      let size : length t ≡ taken * 64 =
        unfold taken in omega (arith, length-take (taken * 64) data') in
      let left : length d < 64 = omega (arith, length-drop (taken * 64) data') in
      let r =
        full_blocks-blocks (length data') taken (blocks full initial done) data' (omega arith)
          refl in
      rw r (record {
        full = full + taken;
        done = done ++ t;
        rest = d;
        split =
            split
            ∙ ap (λ x. done ++ x) (sym (take-append-drop (taken * 64) data'))
            ∙ sym (append_assoc done t d);
        whole = omega (arith, length-append done t);
        part = left;
        ran =
            blocks-take taken (blocks full initial done) data' (omega arith)
            ∙ sym (blocks-append full taken initial done t whole);
        held = stored d left;
        counted = counted;
      })

nil_of_length : (xs : List ℕ) → length xs ≡ 0 → xs ≡ []
nil_of_length [] h = refl
nil_of_length (x ∷ xs) h = absurd (omega arith)

module _ (ctx : Context) (message bytes : List ℕ) (a : Absorbed ctx message) where
  counted_more : ℕ
  counted_more = (ctx.count + length bytes) % 2 ^ 64

  buffered : ctx.count % 64 ≡ length a.rest
  buffered =
      let size = ap length a.split ∙ length-append a.done a.rest in
      omega (arith, size, a.counted, a.whole, a.part)

  counted_on : counted_more ≡ length (message ++ bytes) % 2 ^ 64
  unfolding counted_more
  counted_on = omega (arith, a.counted, length-append message bytes)

  split_on : message ++ bytes ≡ a.done ++ (a.rest ++ bytes)
  split_on = ap (λ m. m ++ bytes) a.split ∙ append_assoc a.done a.rest bytes

  -- Nothing is in the buffer.
  update_empty :
      length a.rest ≡ 0
      → Absorbed (absorb counted_more ctx.state ctx.buffer bytes) (message ++ bytes)
  update_empty none =
      let joined : message ++ bytes ≡ a.done ++ bytes =
        split_on ∙ ap (λ r. a.done ++ (r ++ bytes)) (nil_of_length a.rest none) in
      subst (λ s. Absorbed (absorb counted_more s ctx.buffer bytes) (message ++ bytes)) (sym a.ran)
        (absorb-Absorbed (message ++ bytes) a.done bytes ctx.buffer a.full counted_more joined
          a.whole a.held.0 counted_on)

  -- The data fit behind what the buffer holds.
  update_short :
      length bytes < 64 - length a.rest
      → Absorbed
          (record {
            state = ctx.state;
            count = counted_more;
            buffer = write ctx.buffer (length a.rest) bytes;
          })
          (message ++ bytes)
  update_short short = record {
    full = a.full;
    done = a.done;
    rest = a.rest ++ bytes;
    split = split_on;
    whole = a.whole;
    part = omega (arith, length-append a.rest bytes);
    ran = a.ran;
    held = write-Holds ctx.buffer a.rest bytes (length a.rest) refl a.held (omega arith);
    counted = counted_on;
  }

  -- The data fill the buffer.
  update_filled :
      64 - length a.rest ≤ length bytes
      → let need = 64 - length a.rest in
        let filled = write ctx.buffer (length a.rest) (take need bytes) in
        Absorbed
          (absorb counted_more (transform ctx.state filled) filled (drop need bytes))
          (message ++ bytes)
  update_filled enough =
      let need = 64 - length a.rest in
      let filled = write ctx.buffer (length a.rest) (take need bytes) in
      let b = a.rest ++ take need bytes in
      let size : length b ≡ 64 =
        omega (arith, length-append a.rest (take need bytes), length-take need bytes, a.part) in
      let holds =
        write-Holds ctx.buffer a.rest (take need bytes) (length a.rest) refl a.held
          (omega (arith, length-take need bytes, a.part)) in
      let ran : blocks (a.full + 1) initial (a.done ++ b) ≡ transform ctx.state filled =
        blocks-suc a.full initial a.done b a.whole size
        ∙ ap (λ s. transform s b) (sym a.ran)
        ∙ ap (transform ctx.state) (sym (full-Holds filled b holds size)) in
      let joined : message ++ bytes ≡ (a.done ++ b) ++ drop need bytes =
        split_on
        ∙ ap (λ t. a.done ++ (a.rest ++ t)) (sym (take-append-drop need bytes))
        ∙ ap (λ t. a.done ++ t) (sym (append_assoc a.rest (take need bytes) (drop need bytes)))
        ∙ sym (append_assoc a.done b (drop need bytes)) in
      subst (λ s. Absorbed (absorb counted_more s filled (drop need bytes)) (message ++ bytes)) ran
        (absorb-Absorbed (message ++ bytes) (a.done ++ b) (drop need bytes) filled (a.full + 1)
          counted_more joined (omega (arith, length-append a.done b, a.whole)) holds.0 counted_on)

  pub update-Absorbed : Absorbed (update ctx bytes) (message ++ bytes)
  unfolding update
  update-Absorbed = rw buffered (elim (Bool-cases (length a.rest == 0)) [
    | inl none ↦ rw none (unfold counted_more in update_empty (==→eq (length a.rest) 0 none))
    | inr some ↦ rw some (elim (Bool-cases (ltb (length bytes) (64 - length a.rest))) [
      | inl short ↦ rw short (unfold counted_more in update_short (ltb→lt _ _ short))
      | inr long ↦ rw long (unfold counted_more in update_filled (ltb→le _ _ long))
    ])
  ])
