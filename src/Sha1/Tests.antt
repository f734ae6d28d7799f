-- ===== src/Sha1/Tests.antt =====
-- Tests of SHA-1 on a vector of the standard.
use amdgpu_fand.Base.{◌/◌, ◌≡◌, refl, [], ◌∷◌, some, ◌>>=◌, replicate, codes}
use amdgpu_fand.Sha1.{Sha1Ctx}
use amdgpu_fand.Sha1.Blocks.{absorb}
use amdgpu_fand.Sha1.Final.{padded, final-digest}
use amdgpu_fand.Sha1.{initial}
use amdgpu_fand.Base.{length}
use amdgpu_fand.Sha1.Stream.{Holds, update-Holds}
use amdgpu_fand.Base.{arith}
use amdgpu_fand.Serialize.Bytes.{write_at}
use amdgpu_fand.Sha1.{
  rol, expand, htonl, turn, choose, parity, majority, r0, expanded, r1, r2, r3, r4, round, rounds,
  as_dwords, add_round, transform, init, feed, counted, keep_rest, fill, update, word_bytes, pad,
  digest_of, final,
}

digest_abc :
    (update (init (replicate 64 0)) (codes "abc") >>= λ c. final c)
    ≡ some (
        0xa9 ∷ 0x99 ∷ 0x3e ∷ 0x36 ∷ 0x47 ∷ 0x06 ∷ 0x81 ∷ 0x6a ∷ 0xba ∷ 0x3e ∷ 0x25 ∷ 0x71 ∷ 0x78
        ∷ 0x50 ∷ 0xc2 ∷ 0x6c ∷ 0x9c ∷ 0xd0 ∷ 0xd8 ∷ 0x9d ∷ [])
unfolding rol expand htonl turn choose parity majority r0 expanded r1 r2 r3 r4 round rounds
    as_dwords add_round transform init feed counted keep_rest fill update word_bytes pad digest_of
    final write_at
digest_abc = refl

fresh-Holds : Holds (init (replicate 64 0)) []
unfolding init
fresh-Holds = record {
  blocks = 0;
  full = omega arith;
  rest = omega arith;
  hash = unfold absorb in refl;
  buffered = refl;
  room = refl;
  low = refl;
  high = refl;
}

update-Holds_example :
    (c' : Sha1Ctx) × (update (init (replicate 64 0)) (replicate 100 b'x') ≡ some c')
    × Holds c' (replicate 100 b'x')
update-Holds_example =
    update-Holds (init (replicate 64 0)) [] (replicate 100 b'x') fresh-Holds (omega arith)

final-digest_example :
    final (init (replicate 64 0))
    ≡ some (digest_of (absorb (length (padded []) / 64) initial (padded [])))
final-digest_example = final-digest (init (replicate 64 0)) [] fresh-Holds
