-- ===== src/Files/Probe.antt =====
-- newPermissions (Native/src/Filesystem/AtomicSave.cpp): the probe beside a staged file is gone when it
-- returns.
use ii_file_provider.Base.{
  Option, bytes_eq, Bool, Bytes, [], ◌&&◌, arith, sym, subst, ◌∙◌, ◌≡◌, ◌≢◌, inl, inr, true, false,
  some, none, Bool-cases, ℕ, bytes_eq_iff,
}
use ii_file_provider.Files.World.{
  ask, ◌>>=◌, io_failure, succeeds, file_error, require, put, pure, ◌>>◌, Nodes, Answer, Node,
  regular, done, cut, failed, changed,
}
use ii_file_provider.Files.Staged.{reserve, reserve_at}
use ii_file_provider.Files.Frame.{some≢none, changed_same, changed_other, bytes_eq-false}
use ii_file_provider.Files.Commit.{retire}
use ii_file_provider.Files.Outcomes.{
  Triple, Triple-bind, Triple-pure, Triple-require, Triple-ask, Triple-node_at, Triple-put,
}
use ii_file_provider.Files.Committed.{Ready, Remains, Ready-Remains}

none_required : false ≢ true
none_required e = cc

middle : (a b c : Bool) → a && b && c ≡ true → b ≡ true
middle a b c h = ground arith

module _ (f : Nodes) (stage : Bytes) where
  -- Behind the reservation of a probe at `q`.
  abbrev pub Probing : Bytes → Bytes → Nodes → Type 0
  Probing q content g =
      (f q ≡ none)
      × ((mode : ℕ) × (g stage ≡ some (regular content mode)))
      × ((p : Bytes) → p ≢ stage → p ≢ q → g p ≡ f p)

  Probing-Remains :
      (q content : Bytes) (g : Nodes) → Probing q content g → Remains f stage content g
  Probing-Remains q content g h =
      (h.1, λ p n ne e. h.2 p ne (λ same. some≢none e (subst (λ r. f r ≡ none) (sym same) h.0)) ∙ e)

  module _ (q content : Bytes) (ne : q ≢ stage) where
    Ready-Probing :
        (g : Nodes) (n : Option Node)
        → Ready f stage content g × (g q ≡ none)
        → Probing q content (changed g q n)
    Ready-Probing g n h = (
      sym (h.0.1 q ne) ∙ h.1,
      (h.0.0.0, changed_other g q stage n ne ∙ h.0.0.1),
      λ p far away. changed_other g q p n (λ e. away (sym e)) ∙ h.0.1 p far,
    )

    Probing-Ready : (g : Nodes) → Probing q content g → Ready f stage content (changed g q none)
    Probing-Ready g h = (
      (h.1.0, changed_other g q stage none ne ∙ h.1.1),
      λ p far. elim (Bool-cases (bytes_eq q p)) [
        | inl same ↦
            subst (λ r. changed g q none r ≡ f r) ((bytes_eq_iff q p).0 same)
              (changed_same g q none ∙ sym h.0)
        | inr different ↦
            let apart = bytes_eq-false q p different in
            changed_other g q p none apart ∙ h.2 p far (λ e. apart (sym e))
      ],
    )

    abbrev pub Probed : Bool → Nodes → Type 0
    Probed true g = Probing q content g
    Probed false g = Ready f stage content g

    probe_free :
        (mode : ℕ)
        → Triple
            (λ g. Ready f stage content g × (g q ≡ none))
            (do put q (some (regular [] mode)); pure true)
            Probed
            (λ e. Remains f stage content)
    probe_free mode =
        Triple-bind (λ _. Probing q content) (Triple-put q _ (λ g. Ready-Probing g _))
          (λ _. Triple-pure true (λ g h. h))

    reserve_at-Triple :
        (mode : ℕ) (n : Option Node) (answer : Answer)
        → Triple
            (λ g. Ready f stage content g × (g q ≡ n))
            (reserve_at mode q n answer)
            Probed
            (λ e. Remains f stage content)
    reserve_at-Triple mode (some x) answer = Triple-pure false (λ g h. h.0)
    reserve_at-Triple mode none (failed e) = Triple-pure false (λ g h. h.0)
    reserve_at-Triple mode none done = probe_free mode
    reserve_at-Triple mode none (cut n) = probe_free mode

    pub reserve-Triple :
        (mode : ℕ)
        → Triple (Ready f stage content) (reserve mode q) Probed (λ e. Remains f stage content)
    unfolding reserve
    reserve-Triple mode =
        Triple-ask (λ answer. Triple-node_at q (λ n. reserve_at-Triple mode n answer))

    abbrev Retired : Bool → Nodes → Type 0
    Retired true g = Ready f stage content g
    Retired false g = Probing q content g

    Retired-Remains : (b : Bool) (g : Nodes) → Retired b g → Remains f stage content g
    Retired-Remains true g h = Ready-Remains f stage content g h
    Retired-Remains false g h = Probing-Remains q content g h

    retire-Triple :
        (answer : Answer)
        → Triple
            (Probing q content)
            (retire q answer)
            (λ _. Retired (succeeds answer))
            (λ e. Remains f stage content)
    retire-Triple (failed e) = Triple-pure tt (λ g h. h)
    retire-Triple done = Triple-put q none (λ g h. Probing-Ready g h)
    retire-Triple (cut n) = Triple-put q none (λ g h. Probing-Ready g h)

    -- Behind the reservation.
    pub probing-Triple :
        (made : Bool) (mode : ℕ)
        → Triple
            (Probed made)
            (do
              require made (file_error io_failure)
              inspected ← ask
              removed ← ask
              retire q removed
              closed ← ask
              require
                  (succeeds inspected && succeeds removed && succeeds closed)
                  (file_error io_failure)
              pure mode)
            (λ _. Ready f stage content)
            (λ e. Remains f stage content)
    probing-Triple false mode =
        Triple-require false _ (Ready-Remains f stage content) (λ e. absurd (none_required e))
    probing-Triple true mode = Triple-require true _ (Probing-Remains q content) (λ _.
        Triple-ask (λ inspected. Triple-ask (λ removed.
          Triple-bind (λ _. Retired (succeeds removed)) (retire-Triple removed)
            (λ _. Triple-ask (λ closed.
              Triple-require (succeeds inspected && succeeds removed && succeeds closed) _
                (Retired-Remains (succeeds removed))
                (λ all.
                  Triple-pure mode (λ g h. subst (λ b. Retired b g) (middle _ _ _ all) h)))))))
