-- ===== src/Tests/Offset.antt =====
-- A shifted clock, from the date program to the concrete process.
use libfaketime.Base.{ℕ, suc, ◌*◌, ◌-◌, List, [], ◌∷◌, true, false, ◌≡◌, refl, arith}
use libfaketime.Base.Int.{ℤ, pos, negsuc, ◌+ℤ◌, ◌-ℤ◌, ◌*ℤ◌, ◌/ℤ◌, ◌%ℤ◌, leb_ℤ, ltb_ℤ}
use libfaketime.Base.Text.{codes}
use libfaketime.Shared.Names.{skip_spaces}
use libfaketime.SharedMemory.{digits}
use libfaketime.Outcome.{ok}
use libfaketime.TimeOps.{Time, sec_to_nsec}
use libfaketime.TimeOps.Total.{nanos, nanos_laws, IsNormal}
use libfaketime.Process.{Process, realtime}
use libfaketime.World.{World}
use libfaketime.Seeded.{Converted}
use libfaketime.Request.{parse_ft_string}
use libfaketime.Request.Relative.{HoldsIntegers}
use libfaketime.Clock.{fake_clock_gettime}
use libfaketime.Clock.Steps.{expire}
use libfaketime.Clock.Calls.{Steady, steady_end}
use libfaketime.Wrapper.{offset_text, offset_value, parse_date_seconds}
use libfaketime.Wrapper.Offset.{Begins, offset_value_shows}
use libfaketime.Tests.{thousandths, process, world, floor_thousand, product}
use libfaketime.Tests.Clocks.{first}

pos_thousand : (n : ℕ) → pos n *ℤ 1000 ≡ pos (n * 1000)
unfolding ◌*ℤ◌
pos_thousand n = ground arith

negsuc_thousand : (n : ℕ) → negsuc n *ℤ 1000 ≡ negsuc (suc n * 1000 - 1)
unfolding ◌*ℤ◌
negsuc_thousand n = ground arith

thousandths_trunc : (n : ℤ) → (n *ℤ 1000) /ℤ 1000 ≡ n
unfolding ◌/ℤ◌
thousandths_trunc (pos n) = rw (pos_thousand n) (ground arith)
thousandths_trunc (negsuc n) = rw (negsuc_thousand n) (ground arith)

thousandths_floor : (n : ℤ) → floor_thousand (n *ℤ 1000) ≡ n *ℤ 1000
unfolding ◌%ℤ◌ ◌/ℤ◌
thousandths_floor (pos n) = rw (pos_thousand n) (ground (arith, pos_thousand n))
thousandths_floor (negsuc n) = rw (negsuc_thousand n) (ground (arith, negsuc_thousand n))

thousandths_le : (a b : ℤ) → leb_ℤ (a *ℤ 1000) (b *ℤ 1000) ≡ leb_ℤ a b
thousandths_le (pos a) (pos b) = rw (pos_thousand a, pos_thousand b) (ground arith)
thousandths_le (pos a) (negsuc b) = rw (pos_thousand a, negsuc_thousand b) (ground arith)
thousandths_le (negsuc a) (pos b) = rw (negsuc_thousand a, pos_thousand b) (ground arith)
thousandths_le (negsuc a) (negsuc b) = rw (negsuc_thousand a, negsuc_thousand b) (ground arith)

thousandths_lt : (a b : ℤ) → ltb_ℤ (a *ℤ 1000) (b *ℤ 1000) ≡ ltb_ℤ a b
thousandths_lt (pos a) (pos b) = rw (pos_thousand a, pos_thousand b) (ground arith)
thousandths_lt (pos a) (negsuc b) = rw (pos_thousand a, negsuc_thousand b) (ground arith)
thousandths_lt (negsuc a) (pos b) = rw (negsuc_thousand a, pos_thousand b) (ground arith)
thousandths_lt (negsuc a) (negsuc b) = rw (negsuc_thousand a, negsuc_thousand b) (ground arith)

thousandths_sub : (a : ℤ) → a -ℤ a ≡ pos 0 *ℤ 1000
unfolding ◌-ℤ◌ ◌*ℤ◌
thousandths_sub a = ground arith

thousandths_zero : (b : ℤ) → product (pos 0 *ℤ 1000) b /ℤ 1000 ≡ pos 0 *ℤ 1000
unfolding ◌-ℤ◌ ◌*ℤ◌ ◌+ℤ◌ ◌/ℤ◌
thousandths_zero (pos n) = ground arith
thousandths_zero (negsuc n) = ground arith

thousandths-HoldsIntegers : HoldsIntegers thousandths
thousandths-HoldsIntegers = record {
  trunc_of_ℤ = λ n h. thousandths_trunc n;
  floor_of_ℤ = λ n h. thousandths_floor n;
  le_of_ℤ = λ a b h h'. thousandths_le a b;
  lt_of_ℤ = λ a b h h'. thousandths_lt a b;
  sub_self = λ n h. thousandths_sub (n *ℤ 1000);
  mul_zero = λ n h. thousandths_zero (pos n *ℤ 1000);
}

-- The date program's answer, 1100 s, and the text of the offset behind 100 s.
abbrev answer : List ℕ
answer = codes "1100"

abbrev number : List ℕ → Converted ℤ
number text = record { value = pos 1100; rest = 10 ∷ []; converted = true; erange = false }

abbrev moved : List ℕ
moved = codes "+1000"

abbrev counting : World thousandths
counting = record world {
  strtod = λ text. record { value = pos 1000000; rest = []; converted = true; erange = false };
}

counting-Steady : Steady thousandths counting process
unfolding expire ◌-ℤ◌
counting-Steady = record {
  awake = refl;
  unlimited = refl;
  no_spawn = refl;
  cached = refl;
  no_infile = refl;
  no_outfile = refl;
  no_ticks = refl;
}

counting-Begins : Begins thousandths counting (pos 100) (pos 1100) process first
unfolding ◌-ℤ◌ ◌*ℤ◌ offset_text
counting-Begins = record {
  exact = record { finite = refl; same = refl };
  reads = refl;
  low = omega arith;
  high = omega arith;
  awake = λ e. cc;
  fresh = refl;
  no_rate = refl;
  start_normal = (omega arith, omega arith);
  real_normal = (omega arith, omega arith);
  moved_low = omega nanos_laws;
  moved_high = omega nanos_laws;
  since_low = omega nanos_laws;
  since_high = omega nanos_laws;
  sum_low = omega nanos_laws;
  sum_high = omega nanos_laws;
}

offset_value_shows_example :
    (q : Process thousandths) × (u : Time) × (parse_ft_string thousandths counting moved process
      ≡ ok q)
    × (fake_clock_gettime thousandths counting realtime first q
        ≡ ok (pos 0, u, steady_end thousandths counting q realtime first))
    × IsNormal u
    × (nanos u -ℤ nanos first ≡ (pos 1100 -ℤ pos 100) *ℤ sec_to_nsec)
unfolding offset_value parse_date_seconds skip_spaces offset_text digits ◌-ℤ◌
offset_value_shows_example =
    offset_value_shows thousandths counting number (pos 100) (pos 1100) answer moved process first
      thousandths-HoldsIntegers counting-Begins counting-Steady refl refl
