-- ===== src/Fanctrl/Segment.antt =====
-- The search for the segment of a temperature, and the speed that is interpolated in it.
use amdgpu_fand.Base.{
  ℕ, zero, suc, ◌+◌, ◌-◌, ◌*◌, ◌≤◌, ◌<◌, ◌≡◌, ap, arith, List, some, leb, pos, get_or, Bool-cases,
  inl, inr, lt→ltb, int_of,
}
use native.Mathlib.Nat.{add-zero}
use amdgpu_fand.Float.Interpolation.{lerp_bounds, lerp_inverse_bounds, lerp_inverse_top, lerp-one}
use amdgpu_fand.Float.Accuracy.{IsWithinOne, lerp-IsWithinOne}
use amdgpu_fand.Fanctrl.{FanctrlMatrix, find_segment, segment_point}

-- A segment that is found lies in range and encloses the temperature.
pub record Encloses (temps : List ℕ) (temp lo hi i : ℕ) : Type 0 where
  pub from : lo ≤ i
  pub to : i < hi
  pub above : get_or temps i 0 < temp
  pub below : temp ≤ get_or temps (i + 1) 0

pub find_segment-Encloses :
    (temps : List ℕ) (temp left i : ℕ) {j : ℕ}
    → find_segment temps temp left i ≡ some j
    → Encloses temps temp i (i + left) j
unfolding find_segment
find_segment-Encloses temps temp zero i h = cc
find_segment-Encloses temps temp (suc left) i {j} h =
    ground (arith, find_segment-Encloses temps temp left (i + 1) {j = j})

shift : (i left : ℕ) → i + 1 + left ≡ i + suc left
shift i left = omega arith

-- A temperature above the first threshold and not above the last one has a segment, whatever the
-- order of the thresholds.
pub find_segment_total :
    (temps : List ℕ) (temp left i : ℕ)
    → get_or temps i 0 < temp
    → temp ≤ get_or temps (i + left) 0
    → (j : ℕ) × (find_segment temps temp left i ≡ some j)
unfolding find_segment
find_segment_total temps temp zero i lo hi =
    absurd (omega (arith, ap (λ (k : ℕ). get_or temps k 0) (add-zero i)))
find_segment_total temps temp (suc left) i lo hi =
    elim (Bool-cases (leb temp (get_or temps (i + 1) 0))) [
      | inl e ↦ (i, rw (e, lt→ltb (get_or temps i 0) temp lo))
      | inr e ↦
          let (j, found) =
            find_segment_total temps temp left (i + 1) (ground arith) (rw (shift i left) hi) in
          (j, rw (e, lt→ltb (get_or temps i 0) temp lo) found)
    ]

int_of_small : (v : ℕ) → v ≤ 100 → int_of v ≡ pos v
int_of_small v h = ground arith

-- A speed is less than one away from the straight line through rows `i` and `i + 1`.
abbrev pub IsOnLine : FanctrlMatrix → ℕ → ℕ → ℕ → Type 0
IsOnLine m temp i v =
    let width : ℕ = get_or m.temps (i + 1) 0 - get_or m.temps i 0 in
    IsWithinOne v width (
      get_or m.speeds i 0 * width
      + (get_or m.speeds (i + 1) 0 - get_or m.speeds i 0) * (temp - get_or m.temps i 0))

-- In a segment whose speeds rise the interpolated speed lies between them, less than one away from the straight
-- line, and at the upper threshold it is the upper speed.
pub segment_point_between :
    (m : FanctrlMatrix) (temp i lo hi : ℕ)
    → Encloses m.temps temp lo hi i
    → get_or m.temps (i + 1) 0 ≤ 255
    → get_or m.speeds i 0 ≤ get_or m.speeds (i + 1) 0
    → get_or m.speeds (i + 1) 0 ≤ 100
    → (v : ℕ) × (segment_point m temp (some i) ≡ some (pos i, pos v))
      × (get_or m.speeds i 0 ≤ v)
      × (v ≤ get_or m.speeds (i + 1) 0)
      × (temp ≡ get_or m.temps (i + 1) 0 → v ≡ get_or m.speeds (i + 1) 0)
      × IsOnLine m temp i v
unfolding segment_point
segment_point_between m temp i lo hi en ht rise hs =
    let a = get_or m.temps i 0 in
    let b = get_or m.temps (i + 1) 0 in
    let from = get_or m.speeds i 0 in
    let to = get_or m.speeds (i + 1) 0 in
    let (frac, e, small) =
      lerp_inverse_bounds a b temp (omega arith) (omega arith) (omega arith) (omega arith) in
    let (v, e', lower, upper) = lerp_bounds from to frac rise (omega arith) small in
    (
      v,
      rw (e, e', int_of_small v (omega arith)),
      lower,
      upper,
      λ top. cc (
        e,
        e',
        top,
        lerp_inverse_top a b (omega arith) (omega arith),
        lerp-one from to rise (omega arith),
      ),
      lerp-IsWithinOne a b temp from to (omega arith) (omega arith) (omega arith) (omega arith) rise
          hs small e e',
    )
