-- ===== src/Replay/Write/Laws.antt =====
-- write_all: its end, and the bytes that it writes.
use mathlib.Core.List.{append_assoc}
use libfaketime.Base.{
  ◌⊎◌, ◌-◌, [], ℕ, zero, suc, ◌≡◌, ◌≢◌, refl, ap, ◌↔◌, List, ◌∷◌, ◌++◌, ◌<◌, ◌≤◌, take, drop,
  length, arith, ◌||◌, ◌==◌, leb, ltb, Bool-cases, inl, inr, ◌+◌, ◌*◌,
}
use libfaketime.Replay.Write.{WriteResult, wrote, eintr, error, written, unfinished, write_all}

length-drop : (n : ℕ) (xs : List ℕ) → length (drop n xs) ≡ length xs - n
length-drop zero xs = omega arith
length-drop (suc n) [] = omega arith
length-drop (suc n) (x ∷ xs) = omega (arith, length-drop n xs)

take-append-drop : (n : ℕ) (xs : List ℕ) → take n xs ++ drop n xs ≡ xs
take-append-drop zero xs = refl
take-append-drop (suc n) [] = refl
take-append-drop (suc n) (x ∷ xs) = ap (λ l. x ∷ l) (take-append-drop n xs)

WriteResult-cases : (w : WriteResult) → (w ≡ error) ⊎ ((w ≡ eintr) ⊎ ((n : ℕ) × (w ≡ wrote n)))
WriteResult-cases (wrote n) = inr (inr (n, refl))
WriteResult-cases eintr = inr (inl refl)
WriteResult-cases error = inl refl

-- write_all, with fewer than 1000 interruptions so far, ends within 1000 calls of write() for each
-- byte, whatever they return.
pub write_all_ends :
    (disk : ℕ → WriteResult) (fuel i : ℕ) (bytes : List ℕ) (interruptions : ℕ)
    → interruptions < 1000
    → 1000 * length bytes ≤ fuel + interruptions
    → (write_all disk fuel i bytes interruptions).0 ≢ unfinished
unfolding write_all
write_all_ends disk zero i [] r hr hf = λ e. cc
write_all_ends disk (suc fuel) i [] r hr hf = λ e. cc
write_all_ends disk zero i (b ∷ bytes) r hr hf = absurd (omega arith)
write_all_ends disk (suc fuel) i (b ∷ bytes) r hr hf = elim (WriteResult-cases (disk i)) [
  | inl e ↦ rw (e, write_all) (λ p. cc)
  | inr (inl e) ↦
      rw (e, write_all) (ground (arith, write_all_ends disk fuel (i + 1) (b ∷ bytes) (r + 1)))
  | inr (inr (n, e)) ↦
      rw (e, write_all)
        (ground (
          arith,
          length-drop n (b ∷ bytes),
          write_all_ends disk fuel (i + 1) (drop n (b ∷ bytes)) 0,
        ))
]

-- Whatever write() returns, the bytes that write_all brings to the file are the first of those
-- asked for, and they are all of them exactly when it reports success.
pub write_all_prefix :
    (disk : ℕ → WriteResult) (fuel i : ℕ) (bytes : List ℕ) (interruptions : ℕ)
    → (rest : List ℕ) × ((write_all disk fuel i bytes interruptions).1 ++ rest ≡ bytes)
      × (((write_all disk fuel i bytes interruptions).0 ≡ written) ↔ (rest ≡ []))
unfolding write_all
write_all_prefix disk zero i [] r = ([], refl, (λ e. refl, λ e. refl))
write_all_prefix disk (suc fuel) i [] r = ([], refl, (λ e. refl, λ e. refl))
write_all_prefix disk zero i (b ∷ bytes) r = (b ∷ bytes, refl, (λ e. cc, λ e. cc))
write_all_prefix disk (suc fuel) i (b ∷ bytes) r = elim (WriteResult-cases (disk i)) [
  | inl e ↦ rw (e, write_all) (b ∷ bytes, refl, (λ e. cc, λ e. cc))
  | inr (inl e) ↦
      rw (e, write_all)
        (elim (Bool-cases (leb 1000 (r + 1))) [
          | inl many ↦ rw many (b ∷ bytes, refl, (λ e. cc, λ e. cc))
          | inr few ↦ rw few (write_all_prefix disk fuel (i + 1) (b ∷ bytes) (r + 1))
        ])
  | inr (inr (n, e)) ↦
      rw (e, write_all)
        (elim (Bool-cases ((n == 0) || ltb (length (b ∷ bytes)) n)) [
          | inl bad ↦ rw bad (b ∷ bytes, refl, (λ e. cc, λ e. cc))
          | inr good ↦
              let (rest, p, q) = write_all_prefix disk fuel (i + 1) (drop n (b ∷ bytes)) 0 in
              rw good (rest, rw (append_assoc, p) (take-append-drop n (b ∷ bytes)), q)
        ])
]
