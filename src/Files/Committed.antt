-- ===== src/Files/Committed.antt =====
-- publishFile (Native/src/Filesystem/AtomicSave.cpp): the staged file takes the destination's place,
-- or every file but its mode is as it was.
use ii_file_provider.Base.{
  Option, bytes_eq, Bool, Bytes, refl, sym, ap, subst, ◌∙◌, ◌≡◌, ◌≢◌, true, false, some, none, ℕ,
  bytes_eq_iff,
}
use ii_file_provider.Files.World.{
  pure, ◌>>◌, Nodes, Error, Answer, Errno, Node, regular, done, cut, failed, exists, changed,
}
use ii_file_provider.Files.Paths.{Paths}
use ii_file_provider.Files.Publish.{with_mode, move_node}
use ii_file_provider.Files.Frame.{changed_same, changed_other}
use ii_file_provider.Files.Commit.{rename_to, move_answered, move_file}
use ii_file_provider.Files.Outcomes.{
  Triple, Triple-bind, Triple-pure, Triple-ask, Triple-node_at, Triple-put, Triple-if, Triple-from,
  Triple-fact,
}

pub one_file : {b : Bool} → b ≡ true → b ≢ false
one_file e k = cc

true_overwrites : (f : Nodes) (d : Bytes) → true ≡ false → f d ≡ none
true_overwrites f d e = cc

module _ (f : Nodes) (stage : Bytes) where
  -- The staged bytes are there, and the other files that were there.
  abbrev pub Remains : Bytes → Nodes → Type 0
  Remains content g =
      ((mode : ℕ) × (g stage ≡ some (regular content mode)))
      × ((p : Bytes) (n : Node) → p ≢ stage → f p ≡ some n → g p ≡ some n)

  -- All but the staged file's mode is as it was.
  abbrev pub Ready : Bytes → Nodes → Type 0
  Ready content g =
      ((mode : ℕ) × (g stage ≡ some (regular content mode))) × ((p : Bytes) → p ≢ stage → g p ≡ f p)

  -- The staged bytes stand at `d`, and all but these two paths is as it was.
  abbrev pub Committed : Bytes → Bool → Bytes → Nodes → Type 0
  Committed d overwrite content g =
      ((mode : ℕ) × (g d ≡ some (regular content mode)))
      × (g stage ≡ none)
      × (overwrite ≡ false → f d ≡ none)
      × ((p : Bytes) → p ≢ stage → p ≢ d → g p ≡ f p)

  pub Ready-Remains : (content : Bytes) (g : Nodes) → Ready content g → Remains content g
  Ready-Remains content g h = (h.0, λ p n ne e. h.1 p ne ∙ e)

  pub Ready-mode :
      (content : Bytes) (g : Nodes) (n : Option Node) (mode : ℕ)
      → Ready content g × (g stage ≡ n)
      → Ready content (changed g stage (with_mode n mode))
  Ready-mode content g n mode h = (
    (
      mode,
      changed_same g stage (with_mode n mode) ∙ ap (λ x. with_mode x mode) (sym h.1 ∙ h.0.0.1),
    ),
    λ p ne. changed_other g stage p (with_mode n mode) (λ e. ne (sym e)) ∙ h.0.1 p ne,
  )

  Ready-moved :
      (content d : Bytes) (g : Nodes) (n : Option Node) (overwrite : Bool)
      → stage ≢ d
      → (overwrite ≡ false → f d ≡ none)
      → Ready content g × (g stage ≡ n)
      → Committed d overwrite content (changed (changed g d n) stage none)
  Ready-moved content d g n overwrite ne absent h = (
    (
      h.0.0.0,
      changed_other (changed g d n) stage d none ne ∙ changed_same g d n ∙ (sym h.1 ∙ h.0.0.1),
    ),
    changed_same (changed g d n) stage none,
    absent,
    λ p far away.
        changed_other (changed g d n) stage p none (λ e. far (sym e))
        ∙ (changed_other g d p n (λ e. away (sym e)) ∙ h.0.1 p far),
  )

  module _ (paths : Paths) (normal : Bytes → Bytes) (content d : Bytes) (ne : stage ≢ d)
      (two : paths.same_file stage d ≡ false) where
    abbrev pub Moved : Bool → Option Errno → Nodes → Type 0
    Moved overwrite none g = Committed d overwrite content g
    Moved overwrite (some e) g = Ready content g

    move_node-Triple :
        (overwrite : Bool) {Fail : Error → Nodes → Type 0}
        → (overwrite ≡ false → f d ≡ none)
        → Triple
            (Ready content)
            (rename_to paths normal stage d >> pure {A = Option Errno} none)
            (Moved overwrite)
            Fail
    unfolding move_node
    move_node-Triple overwrite absent =
        Triple-bind (λ _. Committed d overwrite content)
          (Triple-if (paths.same_file stage d) (λ one. absurd (one_file one two))
            (λ apart.
              Triple-if (bytes_eq stage d) (λ same. absurd (ne ((bytes_eq_iff stage d).0 same)))
                (λ different. Triple-node_at stage (λ n.
                  Triple-bind
                    (λ _ g. (h : Nodes) × ((g ≡ changed h d n) × (Ready content h × (h stage ≡ n))))
                    (Triple-put d n (λ g h. (g, (refl, h))))
                    (λ _. Triple-put stage none (λ g h.
                      subst (λ k. Committed d overwrite content (changed k stage none)) (sym h.1.0)
                        (Ready-moved content d h.0 n overwrite ne absent h.1.1)))))))
          (λ _. Triple-pure none (λ g h. h))

    exclusive :
        Triple
          (λ g. Ready content g × (g d ≡ none))
          (rename_to paths normal stage d >> pure {A = Option Errno} none)
          (Moved false)
          (λ e. Remains content)
    exclusive =
        Triple-from (λ g h. (sym (h.0.1 d (λ e. ne (sym e))) ∙ h.1, h.0))
          (Triple-fact (λ absent. move_node-Triple false (λ _. absent)))

    move_answered-Triple :
        (overwrite : Bool) (there : Option Node) (answer : Answer)
        → Triple
            (λ g. Ready content g × (g d ≡ there))
            (move_answered paths normal stage d overwrite there answer)
            (Moved overwrite)
            (λ e. Remains content)
    move_answered-Triple overwrite there (failed e) = Triple-pure (some e) (λ g h. h.0)
    move_answered-Triple true there done =
        Triple-from (λ g h. h.0) (move_node-Triple true (true_overwrites f d))
    move_answered-Triple true there (cut k) =
        Triple-from (λ g h. h.0) (move_node-Triple true (true_overwrites f d))
    move_answered-Triple false (some n) done = Triple-pure (some exists) (λ g h. h.0)
    move_answered-Triple false (some n) (cut k) = Triple-pure (some exists) (λ g h. h.0)
    move_answered-Triple false none done = exclusive
    move_answered-Triple false none (cut k) = exclusive

    pub move_file-Triple :
        (overwrite : Bool)
        → Triple
            (Ready content)
            (move_file paths normal stage d overwrite)
            (Moved overwrite)
            (λ e. Remains content)
    unfolding move_file
    move_file-Triple overwrite =
        Triple-ask
          (λ answer. Triple-node_at d (λ there. move_answered-Triple overwrite there answer))
