-- ===== src/Serialize/Dfa.antt =====
-- The automaton of src/common/serialize.c that reads a conversion such as `hhu` or `lld`. A string is
-- the list of its characters before the terminating NUL.
use Prim.Native.Nat.{bit_and, bit_or}
use amdgpu_fand.Base.{
  ℕ, ◌+◌, ◌%◌, List, [], ◌∷◌, Option, none, some, Bool, true, false, not, ◌||◌, ◌==◌, if◌then◌else◌,
  get_or, ℤ, negsuc, sub_ℕ,
}

-- The states, by their names in the comments of the source.
pub data DfaState : Type 0 where
  start half half_half long long_long signed unsigned reject : DfaState

-- `flags` of a state: ACCEPT 0x1, REJECT 0x2, HALF0 0x4, HALF1 0x8, LONG0 0x10, LONG1 0x20, SIGNED 0x40,
-- UNSIGNED 0x80.
unfoldable pub state_flags : DfaState → ℕ
state_flags start = 0
state_flags half = 0x4
state_flags half_half = 0x8
state_flags long = 0x10
state_flags long_long = 0x20
state_flags signed = 0x41
state_flags unsigned = 0x81
state_flags reject = 0x2

-- DFA_ANY
abbrev pub dfa_any : ℕ
dfa_any = 128

-- `edges` of a state, up to the edge with `c` 0.
unfoldable pub edges : DfaState → List (ℕ × DfaState)
edges start =
    (b'h', half) ∷ (b'l', long) ∷ (b'd', signed) ∷ (b'u', unsigned) ∷ (dfa_any, reject) ∷ []
edges half = (b'h', half_half) ∷ (b'd', signed) ∷ (b'u', unsigned) ∷ (dfa_any, reject) ∷ []
edges half_half = (b'd', signed) ∷ (b'u', unsigned) ∷ (dfa_any, reject) ∷ []
edges long = (b'd', signed) ∷ (b'u', unsigned) ∷ (b'l', long_long) ∷ (dfa_any, reject) ∷ []
edges long_long = (b'd', signed) ∷ (b'u', unsigned) ∷ (dfa_any, reject) ∷ []
edges signed = []
edges unsigned = []
edges reject = []

unfoldable pub dfa_edge_match : ℕ → ℕ → Bool
dfa_edge_match ic ec = ec == dfa_any || ic == ec

unfoldable pub dfa_bitflag_set : ℕ → ℕ → Bool
dfa_bitflag_set flags bit = not (bit_and flags bit == 0)

unfoldable pub dfa_accept : ℕ → Bool
dfa_accept flags = dfa_bitflag_set flags 0x1

-- The loop over the edges; `none` is the invalid path.
unfoldable pub follow_edge : ℕ → List (ℕ × DfaState) → Option DfaState
follow_edge c [] = none
follow_edge c ((ec, end) ∷ later) = if dfa_edge_match c ec then some end else follow_edge c later

-- The combinations that the switch lets through.
unfoldable pub fmt_masks : List ℕ
fmt_masks = 0x70 ∷ 0x4c ∷ 0x50 ∷ 0x44 ∷ 0x40 ∷ 0xb0 ∷ 0x8c ∷ 0x90 ∷ 0x84 ∷ 0x80 ∷ []

unfoldable pub is_one_of : ℕ → List ℕ → Bool
is_one_of m [] = false
is_one_of m (k ∷ ks) = m == k || is_one_of m ks

unfoldable pub flag_times : ℕ → ℕ → ℕ → ℕ
flag_times flags bit n = if dfa_bitflag_set flags bit then n else 0

unfoldable pub dfa_flags_to_fmttype : ℕ → ℤ
dfa_flags_to_fmttype flags =
    if is_one_of (bit_and flags 0xfc) fmt_masks
    then sub_ℕ
        (flag_times flags 0x40 2
          + flag_times flags 0x80 7
          + flag_times flags 0x10 1
          + flag_times flags 0x20 1)
        (flag_times flags 0x4 1 + flag_times flags 0x8 1)
    else negsuc 0

-- The loop of `dfa_simulate`. At the NUL every edge leads away from acceptance.
unfoldable pub simulate : List ℕ → DfaState → ℕ → ℤ
simulate [] current flags =
    let flags' = bit_or flags (state_flags current) in
    if dfa_accept flags' then dfa_flags_to_fmttype flags' else negsuc 0
simulate (c ∷ string) current flags =
    let flags' = bit_or flags (state_flags current) in
    elim (dfa_accept flags') [
      | true ↦ dfa_flags_to_fmttype flags'
      | false ↦ elim (follow_edge c (edges current)) [
        | none ↦ negsuc 0
        | some end ↦ simulate string end flags'
      ]
    ]

unfoldable pub dfa_simulate : List ℕ → ℤ
dfa_simulate string = simulate string start 0

unfoldable pub dfa_valsize : ℕ → ℕ
dfa_valsize fmttype = get_or (1 ∷ 2 ∷ 4 ∷ 8 ∷ 8 ∷ []) (fmttype % 5) 0

unfoldable pub dfa_fmtlen : ℕ → ℕ
dfa_fmtlen fmttype = get_or (3 ∷ 2 ∷ 1 ∷ 2 ∷ 3 ∷ []) (fmttype % 5) 0
