-- ===== src/Execution/Intervals.antt =====
-- Intervals of a stream: where they lie, and what the interval functions do to them.
use native.Mathlib.Nat.{div-mul-le_self}
use tt_wavelet.Common.{ℕ, ◌+◌, ◌^◌, ◌≤◌, ◌<◌, ◌≡◌, refl, ◌↔◌, true, arith, ok}
use tt_wavelet.Signal.Rounding.{round_up_least}
use tt_wavelet.Execution.{
  IndexInterval, interval, contains, hull, translated, validate_interval, close_interval,
}

-- An interval of a stream of a length that has an element.
abbrev pub Inside : IndexInterval → ℕ → Type 0
Inside i n = (i.begin < i.end) × (i.end ≤ n)

-- `inner` lies in `outer`.
abbrev pub Within : IndexInterval → IndexInterval → Type 0
Within inner outer = (outer.begin ≤ inner.begin) × (inner.end ≤ outer.end)

pub contains_iff :
    (outer inner : IndexInterval)
    → inner.begin < inner.end
    → (contains outer inner ≡ true) ↔ Within inner outer
unfolding contains
contains_iff outer inner h = (λ e. ground arith, λ w. ground arith)

-- An interval moved to the right and widened there.
abbrev pub shifted : IndexInterval → ℕ → ℕ → IndexInterval
shifted i left right = interval (i.begin + left) (i.end + left + right)

pub translated-shifted :
    (i : IndexInterval) (left right : ℕ)
    → i.begin < i.end
    → i.end + left + right < 2 ^ 64
    → translated i left right ≡ ok (shifted i left right)
unfolding translated
translated-shifted i left right v h = ground arith

pub validate-Inside : (i : IndexInterval) (n : ℕ) → Inside i n → validate_interval i n ≡ ok tt
unfolding validate_interval
validate-Inside i n v = ground arith

pub hull-Inside : (i j : IndexInterval) (n : ℕ) → Inside i n → Inside j n → Inside (hull i j) n
unfolding hull
hull-Inside i j n v w = ground arith

pub hull_left : (i j : IndexInterval) → i.begin < i.end → Within i (hull i j)
unfolding hull
hull_left i j h = ground arith

pub hull_right : (i j : IndexInterval) → j.begin < j.end → Within j (hull i j)
unfolding hull
hull_right i j h = ground arith

-- Closing an interval widens it to multiples of the extent, inside the stream.
pub close-Inside :
    (c : ℕ) (i : IndexInterval) (n : ℕ)
    → c < 2 ^ 64
    → Inside i n
    → Inside (close_interval c i n) n × Within i (close_interval c i n)
unfolding close_interval
close-Inside c i n hc v = ground (arith, div-mul-le_self i.begin c, round_up_least i.end c)

pub close-zero : (i : IndexInterval) (n : ℕ) → close_interval 0 i n ≡ i
unfolding close_interval
close-zero i n = refl
