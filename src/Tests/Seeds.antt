-- ===== src/Tests/Seeds.antt =====
-- A seed and a process number in the environment.
use libfaketime.Base.{ℕ, ◌≡◌, refl, true, false, some, none, List, [], ◌∷◌, length, take, arith}
use libfaketime.Base.Int.{ℤ, pos, negsuc, ◌≤ℤ◌}
use libfaketime.World.{World}
use libfaketime.Seeded.{Converted, getrandom, getpid}
use libfaketime.Seeded.Laws.{getrandom_prefix, getpid_range}
use libfaketime.Tests.{thousandths, world}

abbrev seeded : World thousandths
seeded = record world { getenv = λ name. some (55 ∷ []) }

abbrev seven : List ℕ → Converted ℕ
seven text = record { value = 7; rest = []; converted = true; erange = false }

-- A number that does not fit into a pid_t.
abbrev too_large : List ℕ → Converted ℤ
too_large text = record { value = pos 4294967303; rest = []; converted = true; erange = false }

getrandom_prefix_example :
    ((getrandom thousandths seeded seven none true 2).0 ≡ pos 2)
    × (length (getrandom thousandths seeded seven none true 2).1 ≡ 2)
    × (take 2 (getrandom thousandths seeded seven none true 5).1
        ≡ (getrandom thousandths seeded seven none true 2).1)
getrandom_prefix_example =
    getrandom_prefix thousandths seeded seven none (55 ∷ []) 2 5 refl refl refl refl (omega arith)

getpid_range_example :
    (negsuc 0 ≤ℤ getpid thousandths seeded too_large none)
    × (getpid thousandths seeded too_large none ≤ℤ pos 2147483647)
getpid_range_example = getpid_range thousandths seeded too_large none (55 ∷ []) refl
