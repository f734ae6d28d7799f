-- ===== src/Sha1/Stream.antt =====
-- Splitting the data of `sha1_update` of src/fand/sha1.c into chunks changes nothing: the context always
-- stands for the whole message.
use amdgpu_fand.Base.{
  ℕ, suc, ◌+◌, ◌-◌, ◌*◌, ◌/◌, ◌%◌, ◌^◌, ◌≤◌, ◌<◌, ◌≡◌, refl, sym, ap, ◌∙◌, arith, List, ◌++◌, true,
  false, ltb, ltb→lt, lt→ltb, length, take, drop, length-append, length-drop, length-take,
  drop-drop, take_all, some, Bool-cases, inl, inr,
}
use amdgpu_fand.Serialize.Bytes.{write_at, length-write_at}
use amdgpu_fand.Sha1.{Sha1Ctx, initial, transform, feed, counted, keep_rest, fill, update}
use amdgpu_fand.Sha1.Blocks.{
  absorb, drop_within, absorb-add, absorb-append, feed-absorb, write_prefix, take_over, drop_over,
}

-- The context stands for the message `m`, of which `blocks` full blocks are absorbed and the rest is buffered.
pub record Holds (c : Sha1Ctx) (m : List ℕ) : Type 0 where
  pub blocks : ℕ
  pub full : 64 * blocks ≤ length m
  pub rest : length m < 64 * blocks + 64
  pub hash : c.hash ≡ absorb blocks initial m
  pub buffered : take (length m - 64 * blocks) c.buffer ≡ drop (64 * blocks) m
  pub room : length c.buffer ≡ 64
  pub low : c.n0 ≡ 8 * length m % 2 ^ 32
  pub high : c.n1 ≡ 8 * length m / 2 ^ 32 % 2 ^ 32

-- The two words count the bits of the message.
counted_lem :
    (c : Sha1Ctx) (m input : List ℕ)
    → Holds c m
    → length input < 2 ^ 32
    → ((counted c (length input)).n0 ≡ 8 * length (m ++ input) % 2 ^ 32)
      × ((counted c (length input)).n1 ≡ 8 * length (m ++ input) / 2 ^ 32 % 2 ^ 32)
unfolding counted
counted_lem c m input holds small =
    let len = length-append m input in
    let low = holds.low in
    let high = holds.high in
    let n0 : (c.n0 + length input * 8 % 2 ^ 32) % 2 ^ 32 ≡ 8 * length (m ++ input) % 2 ^ 32 =
      omega (arith, len, low) in
    elim (Bool-cases (ltb ((c.n0 + length input * 8 % 2 ^ 32) % 2 ^ 32) c.n0)) [
      | inl e ↦ (n0, rw e (omega (arith, len, low, high, ltb→lt _ _ e)))
      | inr e ↦ (n0, rw e (omega (arith, len, low, high, not_below _ _ e)))
    ]
  where
    not_below : (a b : ℕ) → ltb a b ≡ false → b ≤ a
    not_below a b e = ground arith

-- Data that leaves the block unfinished.
buffered_Holds :
    (c : Sha1Ctx) (m input : List ℕ) (h : Holds c m)
    → length m - 64 * h.blocks + length input < 64
    → Holds
        (record (counted c (length input)) {
          buffer = write_at c.buffer (length m - 64 * h.blocks) input;
        })
        (m ++ input)
buffered_Holds c m input h small =
    let len = length-append m input in
    let (low, high) = counted_lem c m input h (omega arith) in
    let fits : length m - 64 * h.blocks + length input ≤ length c.buffer = omega (arith, h.room) in
    let index : length (m ++ input) - 64 * h.blocks ≡ length m - 64 * h.blocks + length input =
      omega (arith, len, h.full) in
    record {
      blocks = h.blocks;
      full = omega (arith, len, h.full);
      rest = omega (arith, len, h.full);
      hash = unfold counted in h.hash ∙ sym (absorb-append h.blocks initial m input h.full);
      buffered =
          rw index (write_prefix c.buffer _ input fits)
          ∙ ap (λ t. t ++ input) h.buffered
          ∙ sym (drop_within (64 * h.blocks) m input h.full);
      room = length-write_at c.buffer _ input fits ∙ h.room;
      low = low;
      high = high;
    }

module _ (c : Sha1Ctx) (m input : List ℕ) (h : Holds c m)
    (enough : 64 ≤ length m - 64 * h.blocks + length input) where
  abbrev held : ℕ
  held = length m - 64 * h.blocks

  abbrev tail : List ℕ
  tail = drop (64 * h.blocks) m

  length-tail : length tail ≡ held
  length-tail = length-drop (64 * h.blocks) m

  remaining : drop (64 * h.blocks) (m ++ input) ≡ tail ++ input
  remaining = drop_within (64 * h.blocks) m input h.full

  abbrev filled : List ℕ
  filled = write_at c.buffer held (take (64 - held) input)

  length-first : length (take (64 - held) input) ≡ 64 - held
  length-first = omega (arith, length-take (64 - held) input, h.rest, h.full)

  filled_room : length filled ≡ 64
  filled_room =
      length-write_at c.buffer held (take (64 - held) input)
        (omega (arith, length-first, h.room, h.rest, h.full))
      ∙ h.room

  -- The buffer holds the next block of the message.
  filled_block : filled ≡ take 64 (tail ++ input)
  filled_block =
      let all : held + length (take (64 - held) input) ≡ 64 =
        omega (arith, length-first, h.rest, h.full) in
      let whole : take 64 filled ≡ filled = take_all filled 64 filled_room in
      let prefix =
        write_prefix c.buffer held (take (64 - held) input) (omega (arith, all, h.room)) in
      sym whole
      ∙ ap (λ n. take n filled) (sym all)
      ∙ prefix
      ∙ ap (λ t. t ++ take (64 - held) input) h.buffered
      ∙ ap (λ n. tail ++ take (64 - n) input) (sym length-tail)
      ∙ sym (take_over 64 tail input (omega (arith, length-tail, h.rest)))

  abbrev behind : List ℕ
  behind = drop (64 - held) input

  behind_block : drop 64 (tail ++ input) ≡ behind
  behind_block =
      drop_over 64 tail input (omega (arith, length-tail, h.rest))
      ∙ ap (λ n. drop (64 - n) input) length-tail

  absorb-behind :
      (k : ℕ)
      → absorb (h.blocks + suc k) initial (m ++ input) ≡ absorb k (transform c.hash filled) behind
  unfolding absorb
  absorb-behind k =
      let before : absorb h.blocks initial (m ++ input) ≡ c.hash =
        absorb-append h.blocks initial m input h.full ∙ sym h.hash in
      absorb-add h.blocks (suc k) initial (m ++ input)
      ∙ ap (λ g. absorb (suc k) g (drop (64 * h.blocks) (m ++ input))) before
      ∙ ap (λ t. absorb (suc k) c.hash t) remaining
      ∙ ap (λ t. absorb k (transform c.hash t) (drop 64 (tail ++ input))) (sym filled_block)
      ∙ ap (λ t. absorb k (transform c.hash filled) t) behind_block

  abbrev more : ℕ
  more = length behind / 64

  length-behind : length behind ≡ length input - (64 - held)
  length-behind = length-drop (64 - held) input

  fed :
      feed (length input) (transform c.hash filled) behind
      ≡ (absorb more (transform c.hash filled) behind, drop (64 * more) behind)
  fed =
      feed-absorb more (length input) (transform c.hash filled) behind
        (omega (arith, length-behind)) (omega arith) (omega arith)

  last_rest : drop (64 * (h.blocks + suc more)) (m ++ input) ≡ drop (64 * more) behind
  last_rest =
      let index : 64 * (h.blocks + suc more) ≡ 64 * h.blocks + (64 + 64 * more) = omega arith in
      ap (λ n. drop n (m ++ input)) index
      ∙ sym (drop-drop (64 + 64 * more) (64 * h.blocks) (m ++ input))
      ∙ ap (λ t. drop (64 + 64 * more) t) remaining
      ∙ sym (drop-drop (64 * more) 64 (tail ++ input))
      ∙ ap (λ t. drop (64 * more) t) behind_block

  length-last : length (drop (64 * more) behind) ≡ length (m ++ input) - 64 * (h.blocks + suc more)
  length-last =
      omega (
        arith,
        length-drop (64 * more) behind,
        length-behind,
        length-append m input,
        h.full,
        h.rest,
      )

  kept :
      take
        (length (m ++ input) - 64 * (h.blocks + suc more))
        (write_at filled 0 (drop (64 * more) behind))
      ≡ drop (64 * more) behind
  kept =
      let index : 0 + length (drop (64 * more) behind)
          ≡ length (m ++ input) - 64 * (h.blocks + suc more) =
        omega (arith, length-last) in
      ap (λ n. take n (write_at filled 0 (drop (64 * more) behind))) (sym index)
      ∙ write_prefix filled 0 (drop (64 * more) behind)
          (omega (arith, filled_room, length-drop (64 * more) behind))

  fill-Holds :
      length input < 2 ^ 32 → Holds (fill (counted c (length input)) held input) (m ++ input)
  fill-Holds small =
      let (low, high) = counted_lem c m input h small in
      let len = length-append m input in
      let result : fill (counted c (length input)) held input ≡ record (counted c (length input)) {
        hash = absorb more (transform c.hash filled) behind;
        buffer = write_at filled 0 (drop (64 * more) behind);
      } =
        unfold fill keep_rest counted in rw fed refl in
      rw result (record {
        blocks = h.blocks + suc more;
        full = omega (arith, len, length-behind, h.full, h.rest);
        rest = omega (arith, len, length-behind, h.full, h.rest);
        hash = sym (absorb-behind more);
        buffered = kept ∙ sym last_rest;
        room =
            length-write_at filled 0 (drop (64 * more) behind)
              (omega (arith, filled_room, length-drop (64 * more) behind))
            ∙ filled_room;
        low = low;
        high = high;
      })

-- A context that stands for a message stands for the message with the data behind it after `sha1_update`,
-- for data of less than 2 ^ 32 - 128 bytes: the full blocks are absorbed one after the other, the rest is buffered
-- and the bits are counted, however the message was split.
pub update-Holds :
    (c : Sha1Ctx) (m input : List ℕ)
    → Holds c m
    → length input < 2 ^ 32 - 128
    → (c' : Sha1Ctx) × (update c input ≡ some c') × Holds c' (m ++ input)
unfolding update
update-Holds c m input h small =
    let index : c.n0 / 8 % 64 ≡ length m - 64 * h.blocks = omega (arith, h.low, h.full, h.rest) in
    let allowed : ltb (length input) (2 ^ 32 - 128) ≡ true = lt→ltb _ _ small in
    elim (Bool-cases (ltb (length m - 64 * h.blocks + length input) 64)) [
      | inl e ↦ (
        record (counted c (length input)) {
          buffer = write_at c.buffer (length m - 64 * h.blocks) input;
        },
        rw (allowed, index, e) refl,
        buffered_Holds c m input h (ltb→lt _ _ e),
      )
      | inr e ↦ (
        fill (counted c (length input)) (length m - 64 * h.blocks) input,
        rw (allowed, index, e) refl,
        fill-Holds c m input h (ground arith) (omega arith),
      )
    ]
