-- ===== src/Crypto/Sha256/Vectors.antt =====
-- kernel/crypto/sha256.c on the published test vector.
use vault_os.Prelude.{[], ◌∷◌, ◌≡◌, refl}
use vault_os.Crypto.Sha256.{
  sha256, update, absorb, full_blocks, final, finish, output, be_bytes, write, init, initial,
  transform, rounds, round, round_constants, working, extend_words, load_words, rotr, ch, maj, ep0,
  ep1, sig0, sig1,
}

-- The published digest of "abc".
sha256_abc :
    sha256 (97 ∷ 98 ∷ 99 ∷ [])
    ≡ 186 ∷ 120 ∷ 22 ∷ 191 ∷ 143 ∷ 1 ∷ 207 ∷ 234 ∷ 65 ∷ 65 ∷ 64 ∷ 222 ∷ 93 ∷ 174 ∷ 34 ∷ 35 ∷ 176 ∷ 3
      ∷ 97 ∷ 163 ∷ 150 ∷ 23 ∷ 122 ∷ 156 ∷ 180 ∷ 16 ∷ 255 ∷ 97 ∷ 242 ∷ 0 ∷ 21 ∷ 173 ∷ []
unfolding sha256 update absorb full_blocks final finish output be_bytes write init initial transform
    rounds round round_constants working extend_words load_words rotr ch maj ep0 ep1 sig0 sig1
sha256_abc = refl
