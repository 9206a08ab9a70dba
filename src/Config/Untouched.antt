-- ===== src/Config/Untouched.antt =====
-- What read_config_file of src/libfaketime.c leaves alone.
use libfaketime.Base.{refl}
use libfaketime.Floats.{Floats}
use libfaketime.Outcome.Laws.{AllOk, AllOk-bind, AllOk-option}
use libfaketime.Process.{Process}
use libfaketime.World.{World}
use libfaketime.Replay.Untouched.{Keeps}
use libfaketime.Request.{parse_ft_string}
use libfaketime.Request.Untouched.{parse_ft_string-Keeps}
use libfaketime.Config.{read_config_file, choose_file, read_file}

module _ (F : Floats) (w : World F) where
  pub read_config_file-Keeps : (p : Process F) → AllOk (λ r. Keeps F p r.1) (read_config_file F w p)
  unfolding read_config_file
  read_config_file-Keeps p =
      AllOk-option (λ r. Keeps F p r.1) (choose_file F w) _ _ refl
        (λ file e.
          AllOk-option (λ r. Keeps F p r.1) (read_file file) _ _ refl
            (λ text e'.
              AllOk-bind (Keeps F p) _ (parse_ft_string F w text p) _
                (parse_ft_string-Keeps F w text p) (λ q k. k)))
