-- ===== src/Tests/Symbols.antt =====
-- Two linkers that differ in a symbol that is ignored.
use libfaketime.Base.{
  ℕ, List, Option, some, none, true, false, inl, inr, ◌≡◌, refl, Bool-cases, if◌then◌else◌,
}
use libfaketime.Base.Text.{codes, same_text}
use libfaketime.Base.Text.Laws.{same_text_eq}
use libfaketime.Config.SymbolList.{str_array_contains, contains_from}
use libfaketime.Startup.Symbols.{
  Symbol, Linker, full_name, found, real_function, real_clock_gettime, real_function_ignores,
}

abbrev ignored : List ℕ
ignored = codes "__clock_gettime,time"

-- Every symbol is at the address 1.
abbrev full : Linker ℕ
full = record { dlsym = λ name. some 1; dlvsym = λ name version. some 1 }

abbrev lacking : Linker ℕ
lacking = record full {
  dlsym = λ name. if same_text name (codes "__clock_gettime") then none else some 1;
}

names_ignored :
    (name : List ℕ)
    → same_text name (codes "__clock_gettime") ≡ true
    → str_array_contains ignored name ≡ true
unfolding str_array_contains contains_from
names_ignored name same = rw (same_text_eq name (codes "__clock_gettime") same) refl

agree :
    (s : Symbol) → str_array_contains ignored (full_name s) ≡ false → found full s ≡ found lacking s
agree s h = by_version s.name s.version h
  where
    by_version :
        (name : List ℕ) (version : Option (List ℕ))
        → str_array_contains ignored (full_name (record { name = name; version = version })) ≡ false
        → found full (record { name = name; version = version })
          ≡ found lacking (record { name = name; version = version })
    by_version name (some v) h = refl
    by_version name none h = elim (Bool-cases (same_text name (codes "__clock_gettime"))) [
      | inl same ↦ let kept = names_ignored name same in cc
      | inr differs ↦ rw differs refl
    ]

real_function_ignores_example :
    real_function full (some ignored) real_clock_gettime
    ≡ real_function lacking (some ignored) real_clock_gettime
real_function_ignores_example = real_function_ignores full lacking ignored agree real_clock_gettime
