-- ===== src/Crypto/Sha256.antt =====
-- kernel/crypto/sha256.c: the hash SHA-256, as a stream of bytes and at once. Words are numbers
-- below 2 ^ 32, and every sum and shift keeps its wrap-around.
pub mod Stream
pub mod Buffer
pub mod Blocks
pub mod Final
mod Vectors
use Prim.Native.Nat.{bit_and, bit_or, bit_xor}
use vault_os.Prelude.{
  ℕ, zero, suc, ◌+◌, ◌-◌, ◌*◌, ◌/◌, ◌%◌, ◌^◌, List, [], ◌∷◌, ◌++◌, Bool, if◌then◌else◌, ◌==◌, ltb,
  length, get_or, take, drop, replicate,
}

-- `uint32_t`
abbrev pub wrap32 : ℕ → ℕ
wrap32 n = n % 2 ^ 32

-- The table `K`
pub round_constants : List ℕ
round_constants =
    1116352408 ∷ 1899447441 ∷ 3049323471 ∷ 3921009573 ∷ 961987163 ∷ 1508970993 ∷ 2453635748
    ∷ 2870763221 ∷ 3624381080 ∷ 310598401 ∷ 607225278 ∷ 1426881987 ∷ 1925078388 ∷ 2162078206
    ∷ 2614888103 ∷ 3248222580 ∷ 3835390401 ∷ 4022224774 ∷ 264347078 ∷ 604807628 ∷ 770255983
    ∷ 1249150122 ∷ 1555081692 ∷ 1996064986 ∷ 2554220882 ∷ 2821834349 ∷ 2952996808 ∷ 3210313671
    ∷ 3336571891 ∷ 3584528711 ∷ 113926993 ∷ 338241895 ∷ 666307205 ∷ 773529912 ∷ 1294757372
    ∷ 1396182291 ∷ 1695183700 ∷ 1986661051 ∷ 2177026350 ∷ 2456956037 ∷ 2730485921 ∷ 2820302411
    ∷ 3259730800 ∷ 3345764771 ∷ 3516065817 ∷ 3600352804 ∷ 4094571909 ∷ 275423344 ∷ 430227734
    ∷ 506948616 ∷ 659060556 ∷ 883997877 ∷ 958139571 ∷ 1322822218 ∷ 1537002063 ∷ 1747873779
    ∷ 1955562222 ∷ 2024104815 ∷ 2227730452 ∷ 2361852424 ∷ 2428436474 ∷ 2756734187 ∷ 3204031479
    ∷ 3329325298 ∷ []

-- `ROTR`, `CH`, `MAJ`, `EP0`, `EP1`, `SIG0`, `SIG1`
pub rotr : ℕ → ℕ → ℕ
rotr x n = bit_or (x / 2 ^ n) (wrap32 (x * 2 ^ (32 - n)))

pub ch : ℕ → ℕ → ℕ → ℕ
ch x y z = bit_xor (bit_and x y) (bit_and (2 ^ 32 - 1 - x) z)

pub maj : ℕ → ℕ → ℕ → ℕ
maj x y z = bit_xor (bit_xor (bit_and x y) (bit_and x z)) (bit_and y z)

pub ep0 : ℕ → ℕ
ep0 x = bit_xor (bit_xor (rotr x 2) (rotr x 13)) (rotr x 22)

pub ep1 : ℕ → ℕ
ep1 x = bit_xor (bit_xor (rotr x 6) (rotr x 11)) (rotr x 25)

pub sig0 : ℕ → ℕ
sig0 x = bit_xor (bit_xor (rotr x 7) (rotr x 18)) (x / 2 ^ 3)

pub sig1 : ℕ → ℕ
sig1 x = bit_xor (bit_xor (rotr x 17) (rotr x 19)) (x / 2 ^ 10)

-- The message schedule: `n` words read big-endian from the data, and the words from `i` on.
pub load_words : ℕ → List ℕ → List ℕ
load_words zero bytes = []
load_words (suc n) bytes =
    let b = λ (i : ℕ). get_or bytes i 0 in
    bit_or (bit_or (bit_or (b 0 * 2 ^ 24) (b 1 * 2 ^ 16)) (b 2 * 2 ^ 8)) (b 3)
    ∷ load_words n (drop 4 bytes)

pub extend_words : ℕ → ℕ → List ℕ → List ℕ
extend_words zero i w = w
extend_words (suc n) i w =
    let at = λ (k : ℕ). get_or w k 0 in
    extend_words n (i + 1)
      (w ++ wrap32 (sig1 (at (i - 2)) + at (i - 7) + sig0 (at (i - 15)) + at (i - 16)) ∷ [])

-- The variables `a` to `h`.
pub record Working : Type 0 where
  pub a : ℕ
  pub b : ℕ
  pub c : ℕ
  pub d : ℕ
  pub e : ℕ
  pub f : ℕ
  pub g : ℕ
  pub h : ℕ

-- Round `i` of the compression loop, and its first `n` rounds.
pub round : List ℕ → ℕ → Working → Working
round w i v =
    let t1 = wrap32 (v.h + ep1 v.e + ch v.e v.f v.g + get_or round_constants i 0 + get_or w i 0) in
    let t2 = wrap32 (ep0 v.a + maj v.a v.b v.c) in
    record {
      a = wrap32 (t1 + t2);
      b = v.a;
      c = v.b;
      d = v.c;
      e = wrap32 (v.d + t1);
      f = v.e;
      g = v.f;
      h = v.g;
    }

pub rounds : ℕ → List ℕ → Working → Working
rounds zero w v = v
rounds (suc n) w v = round w n (rounds n w v)

-- `state`, the eight words of a context.
pub working : List ℕ → Working
working s =
    let at = λ (i : ℕ). get_or s i 0 in
    record { a = at 0; b = at 1; c = at 2; d = at 3; e = at 4; f = at 5; g = at 6; h = at 7 }

-- `sha256_transform`
pub transform : List ℕ → List ℕ → List ℕ
transform state bytes =
    let at = λ (i : ℕ). get_or state i 0 in
    let v = rounds 64 (extend_words 48 16 (load_words 16 bytes)) (working state) in
    wrap32 (at 0 + v.a)
    ∷ wrap32 (at 1 + v.b)
    ∷ wrap32 (at 2 + v.c)
    ∷ wrap32 (at 3 + v.d)
    ∷ wrap32 (at 4 + v.e)
    ∷ wrap32 (at 5 + v.f)
    ∷ wrap32 (at 6 + v.g)
    ∷ wrap32 (at 7 + v.h)
    ∷ []

-- `sha256_ctx_t`
pub record Context : Type 0 where
  pub state : List ℕ
  pub count : ℕ
  pub buffer : List ℕ

-- The state that `sha256_init` sets, and the whole of it.
pub initial : List ℕ
initial =
    1779033703 ∷ 3144134277 ∷ 1013904242 ∷ 2773480762 ∷ 1359893119 ∷ 2600822924 ∷ 528734635
    ∷ 1541459225 ∷ []

pub init : Context
init = record { state = initial; count = 0; buffer = replicate 64 0 }

-- `memcpy(dst + i, src, len)`, with the bytes of `src` that are copied.
pub write : List ℕ → ℕ → List ℕ → List ℕ
write dst i src = take i dst ++ (src ++ drop (i + length src) dst)

-- `while (len >= 64)` of `sha256_update`, on fuel: the state, and the bytes that are left.
pub full_blocks : ℕ → List ℕ → List ℕ → List ℕ × List ℕ
full_blocks zero state bytes = (state, bytes)
full_blocks (suc fuel) state bytes =
    let rest = full_blocks fuel (transform state (take 64 bytes)) (drop 64 bytes) in
    if ltb (length bytes) 64 then (state, bytes) else rest

-- The loop on all the data and the store of the remainder.
pub absorb : ℕ → List ℕ → List ℕ → List ℕ → Context
absorb count state buffer bytes =
    let r = full_blocks (length bytes) state bytes in
    record {
      state = r.0;
      count = count;
      buffer = if length r.1 == 0 then buffer else write buffer 0 r.1;
    }

-- `sha256_update`
pub update : Context → List ℕ → Context
update ctx bytes =
    let buffered = ctx.count % 64 in
    let count = (ctx.count + length bytes) % 2 ^ 64 in
    let need = 64 - buffered in
    let filled = write ctx.buffer buffered (take need bytes) in
    if buffered == 0
    then absorb count ctx.state ctx.buffer bytes
    else if ltb (length bytes) need
    then record { state = ctx.state; count = count; buffer = write ctx.buffer buffered bytes }
    else absorb count (transform ctx.state filled) filled (drop need bytes)

-- The `k` low bytes of a number, the highest first.
pub be_bytes : ℕ → ℕ → List ℕ
be_bytes zero v = []
be_bytes (suc k) v = v / 256 ^ k % 256 ∷ be_bytes k v

-- The words of the state as bytes.
pub output : List ℕ → List ℕ
output [] = []
output (w ∷ ws) = be_bytes 4 w ++ output ws

-- The last block: zeros up to 56, and the count of bits.
pub finish : ℕ → List ℕ → List ℕ → ℕ → List ℕ
finish bits state buffer pad_start =
    let zeroed = write buffer pad_start (replicate (56 - pad_start) 0) in
    output (transform state (write zeroed 56 (be_bytes 8 bits)))

-- `sha256_final`: the digest
pub final : Context → List ℕ
final ctx =
    let bits = ctx.count * 8 % 2 ^ 64 in
    let pad_start = ctx.count % 64 in
    let marked = write ctx.buffer pad_start (128 ∷ []) in
    let zeroed = write marked (pad_start + 1) (replicate (64 - (pad_start + 1)) 0) in
    if ltb 56 (pad_start + 1)
    then finish bits (transform ctx.state zeroed) zeroed 0
    else finish bits ctx.state marked (pad_start + 1)

-- `sha256`
pub sha256 : List ℕ → List ℕ
sha256 bytes = final (update init bytes)
