-- ===== src/Watch/Events.antt =====
-- The loop of `fsys_watch_event` of src/fand/filesystem.c over the events that the kernel writes.
use Prim.Native.Nat.{bit_and}
use amdgpu_fand.Base.{
  ℕ, zero, suc, ◌+◌, ◌^◌, ◌<◌, ◌≤◌, ◌≡◌, refl, ap, sym, ◌∙◌, arith, List, [], ◌∷◌, ◌++◌, Bool, true,
  false, not, ◌&&◌, ◌||◌, ◌==◌, ltb, if◌then◌else◌, All, length, length-append, length-replicate,
  drop-drop, drop, replicate, take-append, drop-append, some, pos, le→ltb, c_string, same_string,
  Bool-cases, inl, inr,
}
use amdgpu_fand.Serialize.Outcome.{ret}
use amdgpu_fand.Serialize.Bytes.{le_bytes, from_le-le_bytes}
use amdgpu_fand.Watch.{
  InotifyWatch, event_size, filename, event_mask, event_len, event_name, is_change, find_change,
  watch_event,
}

-- An event: its name is padded with NULs, at least one where there is a name.
pub record Event : Type 0 where
  pub wd : ℕ
  pub mask : ℕ
  pub cookie : ℕ
  pub name : List ℕ
  pub padding : ℕ

abbrev pub IsChar : ℕ → Type 0
IsChar c = 0 < c

pub record IsEvent (e : Event) : Type 0 where
  pub mask_fits : e.mask < 256 ^ 4
  pub len_fits : length e.name + e.padding < 256 ^ 4
  pub chars : All IsChar e.name

-- The bytes of an event behind its first four.
abbrev pub event_bytes : Event → List ℕ
event_bytes e =
    le_bytes 4 e.wd
    ++ (le_bytes 4 e.mask
        ++ (le_bytes 4 e.cookie
            ++ (le_bytes 4 (length e.name + e.padding) ++ (e.name ++ replicate e.padding 0))))

abbrev pub events_bytes : List Event → List ℕ
events_bytes [] = []
events_bytes (e ∷ events) = event_bytes e ++ events_bytes events

-- The event that the watch is to report.
abbrev pub reports : ℕ → List ℕ → Event → Bool
reports flags name e =
    not (bit_and e.mask flags == 0)
    && not (length e.name + e.padding == 0)
    && same_string e.name name

abbrev pub any_reports : ℕ → List ℕ → List Event → Bool
any_reports flags name [] = false
any_reports flags name (e ∷ events) = reports flags name e || any_reports flags name events

c_string_padded :
    (name : List ℕ) (padding : ℕ) → All IsChar name → c_string (name ++ replicate padding 0) ≡ name
unfolding c_string
c_string_padded [] zero chars = refl
c_string_padded [] (suc n) chars = refl
c_string_padded (zero ∷ name) padding (c, cs) = absurd (omega arith)
c_string_padded (suc x ∷ name) padding (c, cs) =
    ap (λ t. suc x ∷ t) (c_string_padded name padding cs)

-- The fields that the loop reads are those of the event.
module _ (e : Event) (rest : List ℕ) (ok : IsEvent e) where
  abbrev padded : List ℕ
  padded = e.name ++ replicate e.padding 0

  length-padded : length padded ≡ length e.name + e.padding
  length-padded =
      omega
        (arith, length-append e.name (replicate e.padding 0), length-replicate {A = ℕ} e.padding 0)

  event_mask_lem : event_mask (event_bytes e ++ rest) ≡ e.mask
  unfolding event_mask le_bytes
  event_mask_lem = from_le-le_bytes 4 e.mask ok.mask_fits

  event_len_lem : event_len (event_bytes e ++ rest) ≡ length e.name + e.padding
  unfolding event_len le_bytes
  event_len_lem = from_le-le_bytes 4 (length e.name + e.padding) ok.len_fits

  behind_header : drop event_size (event_bytes e ++ rest) ≡ padded ++ rest
  unfolding le_bytes
  behind_header = refl

  event_name_lem : event_name (event_bytes e ++ rest) ≡ e.name
  unfolding event_name
  event_name_lem =
      rw (event_len_lem, behind_header, ← length-padded, take-append padded rest)
        (c_string_padded e.name e.padding ok.chars)

  behind_event :
      drop (event_size + event_len (event_bytes e ++ rest)) (event_bytes e ++ rest) ≡ rest
  behind_event = rw event_len_lem (
      sym (drop-drop (length e.name + e.padding) event_size (event_bytes e ++ rest))
      ∙ ap (drop (length e.name + e.padding)) behind_header
      ∙ ap (λ (n : ℕ). drop n (padded ++ rest)) (sym length-padded)
      ∙ drop-append padded rest)

  length_event : length (event_bytes e ++ rest) ≡ event_size + length (padded ++ rest)
  unfolding le_bytes
  length_event = omega arith

  event_room :
      ltb (length (event_bytes e ++ rest)) (event_size + event_len (event_bytes e ++ rest)) ≡ false
  event_room =
      le→ltb _ _
        (omega (arith, event_len_lem, length_event, length-append padded rest, length-padded))

  is_change_lem :
      (flags : ℕ) (name : List ℕ)
      → is_change flags name (event_bytes e ++ rest) ≡ reports flags name e
  unfolding is_change
  is_change_lem flags name = rw (event_mask_lem, event_len_lem, event_name_lem) refl

-- One round over the bytes of an event.
find_change_event :
    (fuel flags : ℕ) (name : List ℕ) (e : Event) (rest : List ℕ)
    → IsEvent e
    → find_change (suc fuel) flags name (event_bytes e ++ rest)
      ≡ (if reports flags name e then ret true else find_change fuel flags name rest)
unfolding find_change le_bytes
find_change_event fuel flags name e rest ok =
    rw (event_room e rest ok, is_change_lem e rest ok flags name, behind_event e rest ok) refl

find_change_events :
    (fuel flags : ℕ) (name : List ℕ) (events : List Event)
    → All IsEvent events
    → length events ≤ fuel
    → find_change fuel flags name (events_bytes events) ≡ ret (any_reports flags name events)
unfolding find_change
find_change_events zero flags name [] ok enough = refl
find_change_events (suc fuel) flags name [] ok enough = refl
find_change_events zero flags name (e ∷ events) ok enough = absurd (omega arith)
find_change_events (suc fuel) flags name (e ∷ events) (is_event, ok) enough =
    elim (Bool-cases (reports flags name e)) [
      | inl here ↦
          rw (find_change_event fuel flags name e (events_bytes events) is_event, here) refl
      | inr free ↦
          rw (find_change_event fuel flags name e (events_bytes events) is_event, free)
            (find_change_events fuel flags name events ok (omega arith))
    ]

-- There are not more events than bytes.
events_fit : (events : List Event) → length events ≤ length (events_bytes events)
unfolding le_bytes
events_fit [] = omega arith
events_fit (e ∷ events) = omega (
  arith,
  length-append (e.name ++ replicate e.padding 0) (events_bytes events),
  events_fit events,
)

-- Of a buffer that holds whole events, as the kernel writes them, `fsys_watch_event` returns 0 and leaves the watch
-- triggered exactly where one of them has a flag of the watch and the name of the file, which is the part of the
-- path behind its last slash; the rest of the watch is kept.
pub watch_event-reports :
    (path : List ℕ) (watch : InotifyWatch) (events : List Event)
    → All IsEvent events
    → watch_event (some (events_bytes events)) path watch
      ≡ ret (pos 0, record watch { triggered = any_reports watch.flags (filename path) events })
unfolding watch_event
watch_event-reports path watch events ok =
    rw
      (find_change_events (length (events_bytes events)) watch.flags (filename path) events ok
        (events_fit events))
      refl
