-- ===== src/Author/Unicode/Ends.antt =====
-- The loops of Native/src/Core/Authorship.cpp that read code points and write them again.
use ii_file_provider.Base.{
  ◌++◌, ◌&&◌, ◌||◌, not, Bool, ◌==◌, ◌∙◌, OnOk-after, OnOk-bind, OnOk, OnOk-ok, All, ℕ, zero, suc,
  ◌-◌, ◌≤◌, ◌≡◌, refl, ap, true, List, [], ◌∷◌, Bytes, ltb, ok, ◌>>=◌, ◌>>◌, guard, length,
  length-drop, drop, arith, Bool-cases, inl, inr, ltb→lt, ◌<◌,
}
use ii_file_provider.Author.Errors.{invalid_argument, Checked}
use ii_file_provider.Author.Unicode.{
  is_control, is_line_break, encoded, Utf8proc, scalars_loop, scalars,
}

-- The loop's body, with what follows it.
abbrev round : Utf8proc → (Bytes → Checked (List ℕ)) → ℕ → Bytes → Checked (List ℕ)
round u continue c cs = do
  let step = u.iterate (c ∷ cs)
  guard (ltb 0 step.0) invalid_argument
  rest ← continue (drop step.0 (c ∷ cs))
  ok (step.1 ∷ rest)

shorter : (n k : ℕ) (f : ℕ) → suc n ≤ suc f → ltb 0 k ≡ true → (m : ℕ) → m ≡ suc n - k → m ≤ f
shorter n k f h pos m e = let p : 0 < k = ltb→lt 0 k pos in omega (arith, h, p, e)

round-same :
    (u : Utf8proc) (f g : Bytes → Checked (List ℕ)) (c : ℕ) (cs : Bytes)
    → ((k : ℕ) → ltb 0 k ≡ true → f (drop k (c ∷ cs)) ≡ g (drop k (c ∷ cs)))
    → round u f c cs ≡ round u g c cs
round-same u f g c cs same = elim (Bool-cases (ltb 0 ((u.iterate (c ∷ cs)).0))) [
  | inl e ↦ rw e (ap (λ m. m >>= λ rest. ok ((u.iterate (c ∷ cs)).1 ∷ rest)) (same _ e))
  | inr e ↦ rw e refl
]

loop-enough :
    (u : Utf8proc) (f g : ℕ) (value : Bytes)
    → length value ≤ f
    → length value ≤ g
    → scalars_loop u f value ≡ scalars_loop u g value
unfolding scalars_loop
loop-enough u zero zero value hf hg = refl
loop-enough u zero (suc g) [] hf hg = refl
loop-enough u (suc f) zero [] hf hg = refl
loop-enough u (suc f) (suc g) [] hf hg = refl
loop-enough u zero g (c ∷ cs) hf hg = absurd (omega arith)
loop-enough u (suc f) zero (c ∷ cs) hf hg = absurd (omega arith)
loop-enough u (suc f) (suc g) (c ∷ cs) hf hg =
    round-same u (scalars_loop u f) (scalars_loop u g) c cs λ k pos.
      loop-enough u f g (drop k (c ∷ cs))
        (shorter (length cs) k f hf pos _ (length-drop k (c ∷ cs)))
        (shorter (length cs) k g hg pos _ (length-drop k (c ∷ cs)))

-- The rounds do not matter where they are enough.
scalars-round :
    (u : Utf8proc) (c : ℕ) (cs : Bytes)
    → scalars u (c ∷ cs) ≡ (do
      let step = u.iterate (c ∷ cs)
      guard (ltb 0 step.0) invalid_argument
      rest ← scalars u (drop step.0 (c ∷ cs))
      ok (step.1 ∷ rest))
unfolding scalars scalars_loop
scalars-round u c cs = round-same u (scalars_loop u (length cs)) (scalars u) c cs λ k pos.
    loop-enough u (length cs) (length (drop k (c ∷ cs))) (drop k (c ∷ cs))
      (shorter (length cs) k (length cs) (omega arith) pos _ (length-drop k (c ∷ cs))) (omega arith)

-- `utf8proc_iterate` reads a code point from what `utf8proc_encode_char` writes of it.
abbrev pub Decodes : Utf8proc → ℕ → Type 0
Decodes u point =
    (ltb 0 (length (u.encode point)) ≡ true)
    × ((rest : Bytes) → u.iterate (u.encode point ++ rest) ≡ (length (u.encode point), point))

drop-written : (written rest : Bytes) → drop (length written) (written ++ rest) ≡ rest
drop-written [] rest = refl
drop-written (c ∷ cs) rest = drop-written cs rest

read_one :
    (u : Utf8proc) (written rest : Bytes) (point : ℕ) (points : List ℕ)
    → ltb 0 (length written) ≡ true
    → u.iterate (written ++ rest) ≡ (length written, point)
    → scalars u rest ≡ ok points
    → scalars u (written ++ rest) ≡ ok (point ∷ points)
read_one u [] rest point points pos e h = absurd (ground arith)
read_one u (c ∷ cs) rest point points pos e h =
    scalars-round u c (cs ++ rest) ∙ rw (e, pos, drop-written (c ∷ cs) rest, h) refl

module _ (u : Utf8proc) (multiline : Bool) where
  reads_back :
      (points : List ℕ)
      → All (Decodes u) points
      → OnOk (λ bytes. scalars u bytes ≡ ok points) (encoded u multiline points)
  unfolding encoded scalars scalars_loop
  reads_back [] h = refl
  reads_back (point ∷ points) h =
      let P : Bytes → Type 0 = λ bytes. scalars u bytes ≡ ok (point ∷ points) in
      OnOk-after P
        (guard
          ((multiline && point == 10)
            || not (is_control (u.category point) || is_line_break (u.category point)))
          invalid_argument)
        _
        λ _ _.
          OnOk-bind P (λ bytes. scalars u bytes ≡ ok points) (encoded u multiline points) _
            (reads_back points h.1)
            λ rest e. read_one u (u.encode point) rest point points h.0.0 (h.0.1 rest) e

-- Where utf8proc reads back each code point that it writes, `scalars` gets from the text that the last
-- loop of `clean` writes exactly the code points that the loop was given.
pub scalars-encoded :
    (u : Utf8proc) (multiline : Bool) (points : List ℕ) (bytes : Bytes)
    → All (Decodes u) points
    → encoded u multiline points ≡ ok bytes
    → scalars u bytes ≡ ok points
scalars-encoded u multiline points bytes h e =
    OnOk-ok (λ b. scalars u b ≡ ok points) (encoded u multiline points) bytes
      (reads_back u multiline points h) e
