-- ===== src/SetTime/Laws.antt =====
-- clock_settime of src/libfaketime.c, and the next reading of the request.
use libfaketime.Base.{
  ◌∙◌, ap, ◌++◌, if◌then◌else◌, Option, ◌∷◌, [], ◌&&◌, ℕ, Bool, true, false, ◌&&◌, none, some, List,
  ◌≡◌, ◌⊎◌, inl, inr, refl, ltb, length, arith, Bool-cases,
}
use libfaketime.Base.Int.{◌-ℤ◌, ◌+ℤ◌, ℤ, wrap64, pos, negsuc}
use libfaketime.Floats.{Floats}
use libfaketime.TimeOps.{Time}
use libfaketime.Process.{Process, ClockId, Cache}
use libfaketime.World.{World}
use libfaketime.Clock.Steps.{expire}
use mathlib.Core.Path.{subst}
use libfaketime.Request.Relative.{Is64}
use libfaketime.Base.Text.{codes, same_text}
use libfaketime.TimeOps.{time, sec_to_nsec}
use libfaketime.SetTime.{
  updated_file, path_room, Set, clock_settime, set_variable, offset_between, text_room, settable,
}

expire-forced :
    (c : Cache) (now : Time) → (expire (record c { force_expiration = true }) now).expired ≡ true
unfolding expire
expire-forced c now = ground arith

-- The difference that is taken is the one that was added.
difference : (a s : ℤ) → Is64 s → wrap64 ((a +ℤ s) -ℤ a) ≡ s
unfolding wrap64 ◌+ℤ◌ ◌-ℤ◌
difference a s h = ground (arith, h)

-- The value of a variable, empty where it is not set.
abbrev pub value_of : Option (List ℕ) → List ℕ
value_of none = []
value_of (some value) = value

module _ (F : Floats) (w : World F) (print : F.Double → List ℕ) where
  open F use {plus, quotient, double_of_ℤ}

  -- The text of `s` seconds and `n` nanoseconds.
  abbrev pub moved_by : ℤ → ℤ → List ℕ
  moved_by s n =
      print (plus (double_of_ℤ s) (quotient (double_of_ℤ n) (double_of_ℤ (pos sec_to_nsec))))

  -- Where FAKETIME_TIMESTAMP_FILE names a file by a path that fits, and
  -- FAKETIME_UPDATE_TIMESTAMP_FILE is 1, the text is written to the file, with a new line.
  abbrev pub stored : Bool → List ℕ → Option (List ℕ × List ℕ)
  stored opens text =
      let path = value_of (w.getenv "FAKETIME_TIMESTAMP_FILE") in
      let update = value_of (w.getenv "FAKETIME_UPDATE_TIMESTAMP_FILE") in
      if (ltb 0 (length path) && ltb (length path) path_room)
        && (same_text update (codes "1") && opens)
      then some (path, text ++ 10 ∷ [])
      else none

  updated_file-stored :
      (opens : Bool) (text : List ℕ) → updated_file F w print opens text ≡ stored opens text
  unfolding updated_file
  updated_file-stored opens text = ground (arith)

  -- FAKETIME holds `text`, which is stored in the file too, the request is taken from there and not
  -- from a file, and it is read again at the next look at the clock, whenever that is.
  pub record TakesEffect (opens : Bool) (text : List ℕ) (p : Process F) (s : Set F) : Type 0 where
    pub success : s.result ≡ pos 0
    pub variable : s.variable ≡ some text
    pub file : s.file ≡ stored opens text
    pub from_env : s.process.parse_config_file ≡ false
    pub expires : (now : Time) → (expire s.process.cache now).expired ≡ true
    pub same_user : s.process.user ≡ p.user

  -- Nothing is written, and the request is not read again before its time.
  pub record HasNoEffect (p : Process F) (s : Set F) : Type 0 where
    pub failure : s.result ≡ negsuc 0
    pub no_variable : s.variable ≡ none
    pub no_file : s.file ≡ none
    pub same_cache : s.process.cache ≡ p.cache
    pub same_user : s.process.user ≡ p.user

  abbrev pub accepted : ClockId → List ℕ → Bool → Bool
  accepted clk text sets = settable clk && (ltb (length text) text_room && sets)

  clock_settime-branches :
      (real tp : Time) (sets opens : Bool) (clk : ClockId) (p : Process F)
      → ((accepted clk (print (offset_between F w print tp real)) sets ≡ true)
          × TakesEffect opens
              (print (offset_between F w print tp real))
              p
              (clock_settime F w print real sets opens clk (some tp) p))
        ⊎ ((accepted clk (print (offset_between F w print tp real)) sets ≡ false)
            × HasNoEffect p (clock_settime F w print real sets opens clk (some tp) p))
  unfolding clock_settime set_variable
  clock_settime-branches real tp sets opens clk p = elim (Bool-cases (settable clk)) [
    | inr other ↦ inr (
        rw other (
          refl,
          record {
            failure = refl;
            no_variable = refl;
            no_file = refl;
            same_cache = refl;
            same_user = refl;
          },
        ))
    | inl allowed ↦
        let text = print (offset_between F w print tp real) in
        elim (Bool-cases (ltb (length text) text_room)) [
          | inr long ↦ inr (
              rw (allowed, long)
                (
                  refl,
                  record {
                    failure = refl;
                    no_variable = refl;
                    no_file = refl;
                    same_cache = refl;
                    same_user = refl;
                  },
                ))
          | inl fits ↦ elim (Bool-cases sets) [
            | inr fails ↦ inr (
                rw (allowed, fits, fails)
                  (
                    refl,
                    record {
                      failure = refl;
                      no_variable = refl;
                      no_file = refl;
                      same_cache = refl;
                      same_user = refl;
                    },
                  ))
            | inl works ↦ inl (
                rw (allowed, fits, works)
                  (
                    refl,
                    record {
                      success = refl;
                      variable = refl;
                      file = updated_file-stored opens text;
                      from_env = refl;
                      expires = expire-forced p.cache;
                      same_user = refl;
                    },
                  ))
          ]
        ]
  ]

  offset_between-moved_by :
      (real : Time) (s n : ℤ)
      → Is64 s
      → Is64 n
      → print (offset_between F w print (time (real.sec +ℤ s) (real.sub +ℤ n)) real) ≡ moved_by s n
  unfolding offset_between
  offset_between-moved_by real s n hs hn =
      let unit = double_of_ℤ (pos sec_to_nsec) in
      let left = wrap64 ((real.sub +ℤ n) -ℤ real.sub) in
      ap (λ x. print (plus (double_of_ℤ x) (quotient (double_of_ℤ left) unit)))
        (difference real.sec s hs)
      ∙ ap (λ x. print (plus (double_of_ℤ s) (quotient (double_of_ℤ x) unit)))
          (difference real.sub n hn)

  -- clock_settime, called with the time that is `s` seconds and `n` nanoseconds after the real
  -- time, both numbers of 64 bits, succeeds exactly for CLOCK_REALTIME, with a text of that offset
  -- that fits into the buffer, and where setenv succeeds. Then FAKETIME is the text of `s` seconds
  -- and `n` nanoseconds, which is written to FAKETIME_TIMESTAMP_FILE too if
  -- FAKETIME_UPDATE_TIMESTAMP_FILE is 1 and the file can be written, and the next call of
  -- fake_clock_gettime finds the request expired and the configuration file switched off. Otherwise
  -- the result is -1, neither FAKETIME nor a file is written, and the request and its age are as
  -- before.
  pub clock_settime-TakesEffect :
      (real : Time) (s n : ℤ) (sets opens : Bool) (clk : ClockId) (p : Process F)
      → Is64 s
      → Is64 n
      → let tp = time (real.sec +ℤ s) (real.sub +ℤ n) in
        ((accepted clk (moved_by s n) sets ≡ true)
          × TakesEffect opens
              (moved_by s n)
              p
              (clock_settime F w print real sets opens clk (some tp) p))
        ⊎ ((accepted clk (moved_by s n) sets ≡ false)
            × HasNoEffect p (clock_settime F w print real sets opens clk (some tp) p))
  clock_settime-TakesEffect real s n sets opens clk p hs hn =
      let tp = time (real.sec +ℤ s) (real.sub +ℤ n) in
      let call = clock_settime F w print real sets opens clk (some tp) p in
      subst
        (λ t.
          ((accepted clk t sets ≡ true) × TakesEffect opens t p call)
          ⊎ ((accepted clk t sets ≡ false) × HasNoEffect p call))
        (offset_between-moved_by real s n hs hn) (clock_settime-branches real tp sets opens clk p)
