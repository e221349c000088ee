-- ===== src/Files/Transfer.antt =====
-- publishFile (Native/src/Filesystem/AtomicSave.cpp) as a whole: what it reports and what it leaves.
mod Tests
use ii_file_provider.Base.{
  Result, ◌||◌, not, ◌&&◌, length-append, length, Bool, Option, refl, sym, ap, subst, ◌∙◌, ◌≡◌, ◌≢◌,
  ◌⊎◌, inl, inr, true, false, some, none, ok, err, Bool-cases, ℕ, ◌++◌, codes, bytes_eq,
  bytes_eq_iff, Bytes, arith, is_some,
}
use ii_file_provider.Files.World.{
  invalid_path, ask, node_at, file_error, put, pure, Nodes, Error, World, Answer, Errno, Node,
  regular, special, directory, symlink, done, cut, failed, exists, no_entry, cross_device, other,
  Action, ◌>>=◌, ◌>>◌,
}
use ii_file_provider.Files.Paths.{Paths, is_name}
use ii_file_provider.Files.Publish.{
  with_mode, PublishResult, published, refused, status, is_regular, mode_of,
}
use ii_file_provider.Files.Frame.{bytes_eq-false}
use ii_file_provider.Files.Commit.{
  move_file, checked, new_permissions, mode_for, access, moved, permitted, commit_to,
  inspected_target, publish_checked, publish_try, or_failed, publish_file,
}
use ii_file_provider.Files.Committed.{
  Remains, Ready, Committed, Moved, Ready-Remains, Ready-mode, move_file-Triple,
}
use ii_file_provider.Files.Outcomes.{
  Ends, Triple, Triple-bind, Triple-pure, Triple-throw, Triple-call, Triple-call_end,
  Triple-require, Triple-ask, Triple-node_at, Triple-put, Triple-if, Triple-from, Triple-weaken,
  Triple-preview, Triple-fact, Triple-exists,
}
use ii_file_provider.Files.Publication.{Outcome, inspected_target-Triple}

none_required : false ≢ true
none_required e = cc

either_false : (a b : Bool) → a || not b ≡ false → (a ≡ false) × (b ≡ true)
either_false a b h = (ground arith, ground arith)

looked :
    {f : Nodes} {Fail : Error → Nodes → Type 0} (p : Bytes)
    → Triple (λ g. g ≡ f) (node_at p) (λ n g. (g ≡ f) × (g p ≡ n)) Fail
unfolding node_at
looked p = record { ends = λ w x. (x, refl) }

module _ (f : Nodes) (stage d : Bytes) where
  -- The files that were there are there, but for the staged file's mode.
  abbrev pub Survived : Nodes → Type 0
  Survived g =
      ((p : Bytes) (n : Node) → p ≢ stage → f p ≡ some n → g p ≡ some n)
      × ((content : Bytes) (mode : ℕ)
          → f stage ≡ some (regular content mode)
          → (mode' : ℕ) × (g stage ≡ some (regular content mode')))

  -- Behind `publishFile`: the staged bytes have moved to the destination, or survived.
  abbrev pub Settled : Bool → PublishResult → Nodes → Type 0
  Settled overwrite published g =
      (content : Bytes) × ((mode : ℕ) × (f stage ≡ some (regular content mode)))
      × Committed f stage d overwrite content g
  Settled overwrite (refused suffix) g = Survived g

  unchanged : (g : Nodes) → g ≡ f → Survived g
  unchanged g e = (
    λ p n ne h. subst (λ k. k p ≡ some n) (sym e) h,
    λ content mode h. (mode, subst (λ k. k stage ≡ some (regular content mode)) (sym e) h),
  )

  same_content :
      (c c' : Bytes) (m m' : ℕ) {o : Option Node}
      → o ≡ some (regular c m)
      → o ≡ some (regular c' m')
      → c ≡ c'
  same_content c c' m m' x y = cc

  carried_over :
      (c : Bytes) (m : ℕ) (g : Nodes)
      → f stage ≡ some (regular c m)
      → Remains f stage c g
      → Survived g
  carried_over c m g e h = (
    h.1,
    λ content mode there. (
      h.0.0,
      subst (λ b. g stage ≡ some (regular b h.0.0)) (same_content c content m mode e there) h.0.1,
    ),
  )

  closed_case :
      (paths : Paths) (normal : Bytes → Bytes) (overwrite : Bool) (c : Bytes) (m : ℕ)
      → f stage ≡ some (regular c m)
      → (result : PublishResult) (g : Nodes) → Outcome f paths normal stage d c overwrite result g
      → Settled overwrite result g
  closed_case paths normal overwrite c m e published g h = (c, (m, e), h)
  closed_case paths normal overwrite c m e (refused suffix) g h = carried_over c m g e h

  module _ (paths : Paths) (normal : Bytes → Bytes) (overwrite : Bool) (permissions : Option ℕ)
      (two : paths.same_file stage d ≡ false) where
    -- Behind the staged file's status.
    staged-Triple :
        (n : Option Node)
        → f stage ≡ n
        → is_regular n ≡ true
        → stage ≢ d
        → Triple
            (λ g. g ≡ f)
            (do
              answer ← ask
              target ← node_at d
              inspected_target paths normal stage d overwrite permissions target answer)
            (Settled overwrite)
            (λ e. Survived)
    staged-Triple none e r ne = absurd (none_required r)
    staged-Triple (some directory) e r ne = absurd (none_required r)
    staged-Triple (some (special mode)) e r ne = absurd (none_required r)
    staged-Triple (some (symlink target)) e r ne = absurd (none_required r)
    staged-Triple (some (regular c m)) e r ne = Triple-ask (λ answer. Triple-node_at d (λ target.
        Triple-weaken
          (Triple-from
            (λ g h. (
              (m, subst (λ k. k stage ≡ some (regular c m)) (sym h.0) e),
              λ p far. ap (λ k. k p) h.0,
            ))
            (inspected_target-Triple f paths normal stage d c ne two overwrite permissions target
              answer))
          (closed_case paths normal overwrite c m e) (λ x g. carried_over c m g e)))

    status-Triple :
        Triple (λ g. g ≡ f) (status stage) (λ n g. (f stage ≡ n) × (g ≡ f)) (λ e. Survived)
    unfolding status
    status-Triple = Triple-call _ unchanged (
        Triple-weaken {Fail' = λ e. Survived} (looked stage)
          (λ n g h. (subst (λ k. k stage ≡ n) h.0 h.1, h.0)) (λ e g h. h))

    publish_checked-Triple :
        Triple
          (λ g. g ≡ f)
          (publish_checked paths normal stage d overwrite permissions)
          (Settled overwrite)
          (λ e. Survived)
    unfolding publish_checked
    publish_checked-Triple = Triple-bind _ status-Triple (λ source. Triple-fact (λ e.
        Triple-if (bytes_eq stage d || not (is_regular source)) (λ wrong. Triple-pure _ unchanged)
          (λ right.
            staged-Triple source e (either_false _ _ right).1
              (bytes_eq-false stage d (either_false _ _ right).0))))

module _ (f : Nodes) (paths : Paths) (normal : Bytes → Bytes) where
  checked-Triple :
      {Fail : Error → Nodes → Type 0} (name : Bytes)
      → ((g : Nodes) → g ≡ f → Fail (file_error invalid_path) g)
      → Triple
          (λ g. g ≡ f)
          (checked paths normal name)
          (λ p g. (p ≡ normal (paths.absolute name)) × (g ≡ f))
          Fail
  unfolding checked
  checked-Triple name h =
      Triple-require (is_name name) _ h (λ fine. Triple-pure _ (λ g e. (refl, e)))

  publish_try-Triple :
      (stage destination : Bytes) (overwrite : Bool) (permissions : Option ℕ)
      → paths.same_file (normal (paths.absolute stage)) (normal (paths.absolute destination))
        ≡ false
      → Triple
          (λ g. g ≡ f)
          (publish_try paths normal stage destination overwrite permissions)
          (Settled f
            (normal (paths.absolute stage))
            (normal (paths.absolute destination))
            overwrite)
          (λ e. Survived f (normal (paths.absolute stage)) (normal (paths.absolute destination)))
  unfolding publish_try
  publish_try-Triple stage destination overwrite permissions two =
      Triple-bind _
        (checked-Triple stage
          (unchanged f (normal (paths.absolute stage)) (normal (paths.absolute destination))))
        (λ s. Triple-fact (λ e.
          Triple-bind _
            (checked-Triple destination
              (unchanged f (normal (paths.absolute stage)) (normal (paths.absolute destination))))
            (λ d. Triple-fact (λ k.
              subst
                (λ p.
                  Triple (λ g. g ≡ f) (publish_checked paths normal s d overwrite permissions)
                    (Settled f p (normal (paths.absolute destination)) overwrite)
                    (λ x. Survived f p (normal (paths.absolute destination))))
                e
                (subst
                  (λ q.
                    Triple (λ g. g ≡ f) (publish_checked paths normal s d overwrite permissions)
                      (Settled f s q overwrite) (λ x. Survived f s q))
                  k
                  (publish_checked-Triple f s d paths normal overwrite permissions (
                    subst (λ p. paths.same_file p d ≡ false) (sym e)
                      (subst (λ q. paths.same_file (normal (paths.absolute stage)) q ≡ false)
                        (sym k) two))))))))

-- Whatever the calls answer, of the stage and destination that `checked` makes of two names, where
-- they are not names of one file and paths are told apart by their texts: where
-- `publishFile` reports success, the stage was a regular file, its bytes stand at the destination,
-- nothing stands at the stage, every other path has what it had, and nothing had been at the
-- destination unless overwriting was allowed; where it reports a failure, every file that was there
-- is there with the same content, and with the same mode but for the stage.
pub publish_file-Settled :
    (paths : Paths) (lexically_normal : Bytes → Bytes) (stage destination : Bytes)
    (overwrite : Bool) (permissions : Option ℕ) (w : World)
    → paths.same_file
        (lexically_normal (paths.absolute stage))
        (lexically_normal (paths.absolute destination))
      ≡ false
    → let outcome = publish_file paths lexically_normal stage destination overwrite permissions w in
      Settled w.nodes
        (lexically_normal (paths.absolute stage))
        (lexically_normal (paths.absolute destination))
        overwrite
        outcome.0
        outcome.1.nodes
unfolding publish_file
publish_file-Settled paths lexically_normal stage destination overwrite permissions w two =
    finished (publish_try paths lexically_normal stage destination overwrite permissions w) (
      (publish_try-Triple w.nodes paths lexically_normal stage destination overwrite permissions
          two).ends
        w refl)
  where
    finished :
        (o : Result Error PublishResult × World)
        → Ends
            (Settled w.nodes
              (lexically_normal (paths.absolute stage))
              (lexically_normal (paths.absolute destination))
              overwrite)
            (λ e.
              Survived w.nodes
                (lexically_normal (paths.absolute stage))
                (lexically_normal (paths.absolute destination)))
            o
        → Settled w.nodes
            (lexically_normal (paths.absolute stage))
            (lexically_normal (paths.absolute destination))
            overwrite
            (or_failed paths lexically_normal o).0
            (or_failed paths lexically_normal o).1.nodes
    finished (ok result, v) h = h
    finished (err e, v) h = h
