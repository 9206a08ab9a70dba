-- ===== src/Tests/Requests.antt =====
-- Requests of the concrete process.
use libfaketime.Base.{some, [], true, ◌≡◌, refl, arith}
use libfaketime.Base.Text.{codes}
use libfaketime.Outcome.{ok}
use libfaketime.World.{World}
use libfaketime.TimeOps.{time}
use libfaketime.Base.Int.{pos}
use libfaketime.Request.{
  parse_new, dispatch, frozen_request, absolute_time, parse_ft_string, parse_modifiers,
}
use libfaketime.Request.Laws.{parse_ft_string_again}
use libfaketime.Process.{Process, freeze}
use libfaketime.Tests.{thousandths, process, world, at_thousand}

-- An environment in which strptime reads the year 2020.
abbrev dated : World thousandths
dated = record world { strptime = λ s. some (pos 1577836800, []) }

-- The process after that request.
abbrev frozen : Process thousandths
frozen = record process {
  user = record at_thousand {
    mode = freeze;
    faked_time = time (pos 1577836800) (pos 0);
    faked_time_set = true;
    faked_time_saved = codes "2020";
  };
}

parse_2020 : parse_ft_string thousandths dated (codes "2020") process ≡ ok frozen
unfolding parse_ft_string parse_new dispatch frozen_request absolute_time parse_modifiers
parse_2020 = refl

parse_ft_string_again_example : parse_ft_string thousandths world (codes "2020") frozen ≡ ok frozen
parse_ft_string_again_example =
    parse_ft_string_again thousandths dated world (codes "2020") process frozen (omega arith) refl
      parse_2020
