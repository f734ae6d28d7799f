-- ===== src/Serialize/Conversion.antt =====
-- The ten conversions that the automaton of src/common/serialize.c accepts, and that it accepts no other.
use Prim.Native.Nat.{bit_or}
use amdgpu_fand.Base.{
  ℕ, ◌≡◌, refl, List, [], ◌∷◌, ◌++◌, Bool, true, false, ◌&&◌, ◌==◌, if◌then◌else◌, ℤ, pos, negsuc,
  arith,
}
use amdgpu_fand.Serialize.Dfa.{
  DfaState, start, half, half_half, long, long_long, signed, unsigned, reject, state_flags, edges,
  dfa_edge_match, dfa_bitflag_set, dfa_accept, follow_edge, fmt_masks, is_one_of, flag_times,
  dfa_flags_to_fmttype, simulate, dfa_simulate,
}

-- The ten conversions, with the value of their FMT constant and their characters.
pub data Conversion : Type 0 where
  hhd hd d ld lld hhu hu u lu llu : Conversion

abbrev pub fmt_code : Conversion → ℕ
fmt_code hhd = 0
fmt_code hd = 1
fmt_code d = 2
fmt_code ld = 3
fmt_code lld = 4
fmt_code hhu = 5
fmt_code hu = 6
fmt_code u = 7
fmt_code lu = 8
fmt_code llu = 9

abbrev pub chars : Conversion → List ℕ
chars hhd = b'h' ∷ b'h' ∷ b'd' ∷ []
chars hd = b'h' ∷ b'd' ∷ []
chars d = b'd' ∷ []
chars ld = b'l' ∷ b'd' ∷ []
chars lld = b'l' ∷ b'l' ∷ b'd' ∷ []
chars hhu = b'h' ∷ b'h' ∷ b'u' ∷ []
chars hu = b'h' ∷ b'u' ∷ []
chars u = b'u' ∷ []
chars lu = b'l' ∷ b'u' ∷ []
chars llu = b'l' ∷ b'l' ∷ b'u' ∷ []

-- The number of bytes of the C type.
abbrev pub size : Conversion → ℕ
size hhd = 1
size hd = 2
size d = 4
size ld = 8
size lld = 8
size hhu = 1
size hu = 2
size u = 4
size lu = 8
size llu = 8

-- The conversions in the order of their codes.
abbrev pub conversions : List Conversion
conversions = hhd ∷ hd ∷ d ∷ ld ∷ lld ∷ hhu ∷ hu ∷ u ∷ lu ∷ llu ∷ []

abbrev pub starts_with : List ℕ → List ℕ → Bool
starts_with [] string = true
starts_with (p ∷ ps) [] = false
starts_with (p ∷ ps) (c ∷ cs) = c == p && starts_with ps cs

-- The code of the first conversion that a string starts with, -1 if there is none.
abbrev pub first_of_list : List Conversion → List ℕ → ℤ
first_of_list [] string = negsuc 0
first_of_list (t ∷ ts) string =
    if starts_with (chars t) string then pos (fmt_code t) else first_of_list ts string

at_accept :
    (rest : List ℕ) (s : DfaState) (flags : ℕ)
    → dfa_accept (bit_or flags (state_flags s)) ≡ true
    → simulate rest s flags ≡ dfa_flags_to_fmttype (bit_or flags (state_flags s))
unfolding simulate
at_accept [] s flags h = rw h
at_accept (c ∷ rest) s flags h = rw (h, simulate)

at_reject :
    (rest : List ℕ) (flags : ℕ)
    → dfa_accept (bit_or flags 0x2) ≡ false
    → simulate rest reject flags ≡ negsuc 0
unfolding simulate edges follow_edge state_flags
at_reject [] flags h = rw h
at_reject (c ∷ rest) flags h = rw (h, simulate)

-- On a conversion, whatever follows it, the automaton answers its code.
pub simulate_chars :
    (t : Conversion) (rest : List ℕ) → dfa_simulate (chars t ++ rest) ≡ pos (fmt_code t)
unfolding dfa_simulate simulate edges follow_edge dfa_edge_match dfa_accept dfa_bitflag_set
    state_flags dfa_flags_to_fmttype flag_times is_one_of fmt_masks
simulate_chars hhd rest = at_accept rest signed 12 refl
simulate_chars hd rest = at_accept rest signed 4 refl
simulate_chars d rest = at_accept rest signed 0 refl
simulate_chars ld rest = at_accept rest signed 16 refl
simulate_chars lld rest = at_accept rest signed 48 refl
simulate_chars hhu rest = at_accept rest unsigned 12 refl
simulate_chars hu rest = at_accept rest unsigned 4 refl
simulate_chars u rest = at_accept rest unsigned 0 refl
simulate_chars lu rest = at_accept rest unsigned 16 refl
simulate_chars llu rest = at_accept rest unsigned 48 refl

-- One round at each state that does not accept.
start_step :
    (c : ℕ) (cs : List ℕ)
    → simulate (c ∷ cs) start 0 ≡ (
        if c == b'h'
        then simulate cs half 0
        else if c == b'l'
        then simulate cs long 0
        else if c == b'd'
        then pos 2
        else if c == b'u'
        then pos 7
        else negsuc 0)
unfolding simulate edges follow_edge dfa_edge_match dfa_accept dfa_bitflag_set state_flags
    dfa_flags_to_fmttype flag_times is_one_of fmt_masks
start_step c cs =
    ground (arith, at_accept cs signed 0 refl, at_accept cs unsigned 0 refl, at_reject cs 0 refl)

half_step :
    (c : ℕ) (cs : List ℕ)
    → simulate (c ∷ cs) half 0 ≡ (
        if c == b'h'
        then simulate cs half_half 4
        else if c == b'd'
        then pos 1
        else if c == b'u'
        then pos 6
        else negsuc 0)
unfolding simulate edges follow_edge dfa_edge_match dfa_accept dfa_bitflag_set state_flags
    dfa_flags_to_fmttype flag_times is_one_of fmt_masks
half_step c cs =
    ground (arith, at_accept cs signed 4 refl, at_accept cs unsigned 4 refl, at_reject cs 4 refl)

long_step :
    (c : ℕ) (cs : List ℕ)
    → simulate (c ∷ cs) long 0 ≡ (
        if c == b'd'
        then pos 3
        else if c == b'u'
        then pos 8
        else if c == b'l'
        then simulate cs long_long 16
        else negsuc 0)
unfolding simulate edges follow_edge dfa_edge_match dfa_accept dfa_bitflag_set state_flags
    dfa_flags_to_fmttype flag_times is_one_of fmt_masks
long_step c cs =
    ground (arith, at_accept cs signed 16 refl, at_accept cs unsigned 16 refl, at_reject cs 16 refl)

half_half_step :
    (c : ℕ) (cs : List ℕ)
    → simulate (c ∷ cs) half_half 4
      ≡ (if c == b'd' then pos 0 else if c == b'u' then pos 5 else negsuc 0)
unfolding simulate edges follow_edge dfa_edge_match dfa_accept dfa_bitflag_set state_flags
    dfa_flags_to_fmttype flag_times is_one_of fmt_masks
half_half_step c cs =
    ground (arith, at_accept cs signed 12 refl, at_accept cs unsigned 12 refl, at_reject cs 12 refl)

long_long_step :
    (c : ℕ) (cs : List ℕ)
    → simulate (c ∷ cs) long_long 16
      ≡ (if c == b'd' then pos 4 else if c == b'u' then pos 9 else negsuc 0)
unfolding simulate edges follow_edge dfa_edge_match dfa_accept dfa_bitflag_set state_flags
    dfa_flags_to_fmttype flag_times is_one_of fmt_masks
long_long_step c cs =
    ground (arith, at_accept cs signed 48 refl, at_accept cs unsigned 48 refl, at_reject cs 48 refl)

at_end :
    (simulate [] half 0 ≡ negsuc 0)
    × (simulate [] long 0 ≡ negsuc 0)
    × (simulate [] half_half 4 ≡ negsuc 0)
    × (simulate [] long_long 16 ≡ negsuc 0)
unfolding simulate edges follow_edge dfa_edge_match dfa_accept dfa_bitflag_set state_flags
    dfa_flags_to_fmttype flag_times is_one_of fmt_masks
at_end = (refl, refl, refl, refl)

-- On every string the automaton answers the code of the conversion that the string starts with, and
-- -1 where there is none: a prefix is enough, and no other string passes.
pub dfa_simulate-first_of_list :
    (string : List ℕ) → dfa_simulate string ≡ first_of_list conversions string
unfolding dfa_simulate
dfa_simulate-first_of_list [] =
    unfold simulate edges follow_edge dfa_edge_match dfa_accept dfa_bitflag_set state_flags
      dfa_flags_to_fmttype flag_times is_one_of fmt_masks in
    refl
dfa_simulate-first_of_list (a ∷ []) = ground (arith, start_step a [], at_end)
dfa_simulate-first_of_list (a ∷ b ∷ []) =
    ground (arith, start_step a (b ∷ []), half_step b [], long_step b [], at_end)
dfa_simulate-first_of_list (a ∷ b ∷ c ∷ rest) = ground (
  arith,
  start_step a (b ∷ c ∷ rest),
  half_step b (c ∷ rest),
  long_step b (c ∷ rest),
  half_half_step c rest,
  long_long_step c rest,
)
