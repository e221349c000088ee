-- ===== src/Files/Frame.antt =====
-- What an action of Native/src/Core/File.cpp leaves in place, compared with the files that stood
-- when it began.
use ii_file_provider.Base.{
  ◌≡◌, refl, sym, ap, ◌∙◌, subst, ◌≢◌, ◌⊎◌, inl, inr, false, Bool-cases, [], Option, none, some,
  Bytes, bytes_eq, bytes_eq_iff, bytes_eq_refl, ℕ, arith,
}
use ii_file_provider.Files.Publish.{with_mode}
use ii_file_provider.Files.World.{Node, regular, directory, Nodes, changed}

-- A directory, or the sentinel that TemporaryLease makes.
abbrev pub IsMade : Option Node → Type 0
IsMade n = (n ≡ some directory) ⊎ (n ≡ some (regular [] 384))

-- `p` has what it had, or a directory or sentinel where nothing was.
abbrev pub Kept : Nodes → Nodes → Bytes → Type 0
Kept f g p = (g p ≡ f p) ⊎ ((f p ≡ none) × IsMade (g p))

-- Every file that was there is there with the same content and mode.
abbrev pub Grown : Nodes → Nodes → Type 0
Grown f g = (p : Bytes) (n : Node) → f p ≡ some n → g p ≡ some n

pub bytes_ne : (p q : Bytes) → p ≢ q → bytes_eq p q ≡ false
bytes_ne p q h = ground (arith, bytes_eq_iff p q)

pub changed_same : (g : Nodes) (p : Bytes) (n : Option Node) → changed g p n p ≡ n
changed_same g p n = rw (bytes_eq_refl p) refl

pub changed_other : (g : Nodes) (p q : Bytes) (n : Option Node) → p ≢ q → changed g p n q ≡ g q
changed_other g p q n h = rw (bytes_ne p q h) refl

pub bytes_eq-false : (p q : Bytes) → bytes_eq p q ≡ false → p ≢ q
bytes_eq-false p q h = ground (arith, bytes_eq_iff p q)

pub some≢none : {n : Node} {o : Option Node} → o ≡ some n → o ≢ none
some≢none e = cc

module _ (f : Nodes) where
  abbrev pub Safe : Nodes → Type 0
  Safe g = (p : Bytes) → Kept f g p

  -- A staged file at `s`, where nothing was.
  abbrev pub Staging : Bytes → Nodes → Type 0
  Staging s g = (f s ≡ none) × ((p : Bytes) → p ≢ s → Kept f g p)

  abbrev pub Holding : Bytes → Bytes → Nodes → Type 0
  Holding s bytes g = Staging s g × ((mode : ℕ) × (g s ≡ some (regular bytes mode)))

  pub Kept-none : (g : Nodes) (p : Bytes) → Kept f g p → g p ≡ none → f p ≡ none
  Kept-none g p (inl e) h = sym e ∙ h
  Kept-none g p (inr (e, made)) h = e

  pub Kept-some : (g : Nodes) (p : Bytes) (n : Node) → Kept f g p → f p ≡ some n → g p ≡ some n
  Kept-some g p n (inl e) h = e ∙ h
  Kept-some g p n (inr (e, made)) h = cc

  pub Kept-equal : (g h : Nodes) (p : Bytes) → h p ≡ g p → Kept f g p → Kept f h p
  Kept-equal g h p e (inl x) = inl (e ∙ x)
  Kept-equal g h p e (inr (x, inl y)) = inr (x, inl (e ∙ y))
  Kept-equal g h p e (inr (x, inr y)) = inr (x, inr (e ∙ y))

  pub Safe-Grown : (g : Nodes) → Safe g → Grown f g
  Safe-Grown g h p n = Kept-some g p n (h p)

  pub Safe-refl : Safe f
  Safe-refl p = inl refl

  pub Safe-none : (g : Nodes) (p : Bytes) → Safe g → g p ≡ none → f p ≡ none
  Safe-none g p h = Kept-none g p (h p)

  -- A directory or a sentinel where there is nothing.
  pub Safe-put :
      (g : Nodes) (p : Bytes) (n : Option Node)
      → Safe g
      → g p ≡ none
      → IsMade n
      → Safe (changed g p n)
  Safe-put g p n h e made q = elim (Bool-cases (bytes_eq p q)) [
    | inl same ↦
        let here = (bytes_eq_iff p q).0 same in
        subst (λ r. Kept f (changed g p n) r) here
          (inr (Safe-none g p h e, subst IsMade (sym (changed_same g p n)) made))
    | inr different ↦ rw different (h q)
  ]

  pub Staging-put :
      (s : Bytes) (g : Nodes) (n : Option Node) → Staging s g → Staging s (changed g s n)
  Staging-put s g n h = (
    h.0,
    λ p ne. Kept-equal g (changed g s n) p (changed_other g s p n (λ e. ne (sym e))) (h.1 p ne),
  )

  pub Staging-start : (s : Bytes) (g : Nodes) → Safe g → g s ≡ none → Staging s g
  Staging-start s g h e = (Safe-none g s h e, λ p ne. h p)

  pub Staging-Grown : (s : Bytes) (g : Nodes) → Staging s g → Grown f g
  Staging-Grown s g h p n e = Kept-some g p n (h.1 p elsewhere) e
    where
      elsewhere : p ≢ s
      elsewhere same = some≢none e (subst (λ q. f q ≡ none) (sym same) h.0)

  -- The staged file's place in the order again.
  pub Staging-end : (s : Bytes) (g : Nodes) → Staging s g → g s ≡ none → Safe g
  Staging-end s g h e p = elim (Bool-cases (bytes_eq p s)) [
    | inl same ↦ subst (λ q. Kept f g q) (sym ((bytes_eq_iff p s).0 same)) (inl (e ∙ sym h.0))
    | inr different ↦ h.1 p (bytes_eq-false p s different)
  ]

  -- A file with `bytes` at `d`, and the other files as they were.
  abbrev pub Replaced : Bytes → Bytes → Nodes → Type 0
  Replaced d bytes g =
      ((mode : ℕ) × (g d ≡ some (regular bytes mode))) × ((p : Bytes) → p ≢ d → Kept f g p)

  pub Holding-mode :
      (s bytes : Bytes) (g : Nodes) (n : Option Node) (mode : ℕ)
      → Holding s bytes g × (g s ≡ n)
      → Holding s bytes (changed g s (with_mode n mode))
  Holding-mode s bytes g n mode h = (
    Staging-put s g _ h.0.0,
    (mode, changed_same g s (with_mode n mode) ∙ ap (λ x. with_mode x mode) (sym h.1 ∙ h.0.1.1)),
  )

  pub Holding-same :
      (s d bytes : Bytes) (g : Nodes) → s ≡ d → Holding s bytes g → Replaced d bytes g
  Holding-same s d bytes g e h = subst (λ q. Replaced q bytes g) e (h.1, h.0.1)

  pub Holding-moved :
      (s d bytes : Bytes) (g : Nodes) (n : Option Node)
      → s ≢ d
      → Holding s bytes g × (g s ≡ n)
      → Replaced d bytes (changed (changed g d n) s none)
  Holding-moved s d bytes g n ne h = (
    (h.0.1.0, changed_other (changed g d n) s d none ne ∙ changed_same g d n ∙ (sym h.1 ∙ h.0.1.1)),
    λ p far. elim (Bool-cases (bytes_eq s p)) [
      | inl same ↦
          subst (λ q. Kept f (changed (changed g d n) s none) q) ((bytes_eq_iff s p).0 same)
            (inl (changed_same (changed g d n) s none ∙ sym h.0.0.0))
      | inr different ↦
          let apart = bytes_eq-false s p different in
          Kept-equal g (changed (changed g d n) s none) p
            (changed_other (changed g d n) s p none apart
              ∙ changed_other g d p n (λ e. far (sym e)))
            (h.0.0.1 p (λ e. apart (sym e)))
    ],
  )
