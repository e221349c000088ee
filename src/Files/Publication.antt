-- ===== src/Files/Publication.antt =====
-- publishFile (Native/src/Filesystem/AtomicSave.cpp), behind its look at the staged file.
use ii_file_provider.Base.{
  not, ◌&&◌, length-append, length, Bool, Option, ap, ◌≡◌, ◌≢◌, false, some, none, ℕ, ◌++◌, codes,
  Bytes, arith, is_some,
}
use ii_file_provider.Files.World.{
  put, pure, Nodes, Answer, Errno, Node, done, cut, failed, exists, no_entry, cross_device, other,
  ◌>>=◌, ◌>>◌,
}
use ii_file_provider.Files.Paths.{Paths}
use ii_file_provider.Files.Publish.{
  with_mode, PublishResult, published, refused, is_regular, mode_of,
}
use ii_file_provider.Files.Commit.{
  share, move_file, new_permissions, mode_for, access, moved, permitted, commit_to,
  inspected_target,
}
use ii_file_provider.Files.Probe.{reserve-Triple, probing-Triple}
use ii_file_provider.Files.Committed.{
  one_file, Remains, Ready, Committed, Moved, Ready-Remains, Ready-mode, move_file-Triple,
}
use ii_file_provider.Files.Outcomes.{
  Triple, Triple-bind, Triple-pure, Triple-call_end, Triple-ask, Triple-node_at, Triple-put,
  Triple-if, Triple-from, Triple-preview,
}

probe_ne : (stage : Bytes) → stage ++ codes ".permission-probe" ≢ stage
probe_ne stage e = omega (arith, ap length e, length-append stage (codes ".permission-probe"))

module _ (f : Nodes) (paths : Paths) (lexically_normal : Bytes → Bytes) (stage d : Bytes) where
  module _ (content : Bytes) where
    abbrev pub Outcome : Bool → PublishResult → Nodes → Type 0
    Outcome overwrite published g = Committed f stage d overwrite content g
    Outcome overwrite (refused suffix) g = Remains f stage content g

    refusal :
        (overwrite : Bool) (suffix : Bytes)
        → Triple
            (Ready f stage content)
            (pure (refused suffix))
            (Outcome overwrite)
            (λ e. Remains f stage content)
    refusal overwrite suffix = Triple-pure _ (Ready-Remains f stage content)

    new_permissions-Triple :
        Triple
          (Ready f stage content)
          (new_permissions paths lexically_normal stage)
          (λ _. Ready f stage content)
          (λ e. Remains f stage content)
    unfolding new_permissions
    new_permissions-Triple =
        Triple-bind _ (reserve-Triple f stage _ content (probe_ne stage) paths.created_mode)
          (λ made. probing-Triple f stage _ content (probe_ne stage) made paths.created_mode)

    mode_for-Triple :
        (target : Option Node) (permissions : Option ℕ)
        → Triple
            (Ready f stage content)
            (mode_for paths lexically_normal stage target permissions)
            (λ _. Ready f stage content)
            (λ e. Remains f stage content)
    mode_for-Triple target (some mode) = Triple-pure mode (λ g h. h)
    mode_for-Triple (some n) none = Triple-pure (mode_of n 0) (λ g h. h)
    mode_for-Triple none none = new_permissions-Triple

    access-Triple :
        (target : Option Node)
        → Triple
            (Ready f stage content)
            (access paths lexically_normal target)
            (λ _. Ready f stage content)
            (λ e. Remains f stage content)
    access-Triple none = Triple-pure tt (λ g h. h)
    access-Triple (some n) = Triple-call_end _ (Ready-Remains f stage content) (λ g h. h)

    module _ (ne : stage ≢ d) (two : paths.same_file stage d ≡ false) (overwrite : Bool) where
      moved-Triple :
          (o : Option Errno)
          → Triple
              (Moved f stage paths lexically_normal content d ne two overwrite o)
              (moved paths lexically_normal d o)
              (Outcome overwrite)
              (λ e. Remains f stage content)
      moved-Triple none = Triple-preview _ (Triple-pure published (λ g h. h))
      moved-Triple (some exists) = refusal overwrite _
      moved-Triple (some no_entry) = refusal overwrite _
      moved-Triple (some cross_device) = refusal overwrite _
      moved-Triple (some other) = refusal overwrite _

      after_mode :
          (mode : ℕ) (n : Option Node)
          → Triple
              (λ g. Ready f stage content g × (g stage ≡ n))
              (do
                put stage (with_mode n mode)
                share paths lexically_normal stage d (with_mode n mode)
                error ← move_file paths lexically_normal stage d overwrite
                moved paths lexically_normal d error)
              (Outcome overwrite)
              (λ e. Remains f stage content)
      after_mode mode n =
          Triple-bind (λ _. Ready f stage content)
            (Triple-put stage _ (λ g. Ready-mode f stage content g n mode))
            (λ _.
              Triple-bind (λ _. Ready f stage content)
                (Triple-if (paths.same_file stage d) (λ one. absurd (one_file one two))
                  (λ apart. Triple-pure tt (λ g h. h)))
                (λ _.
                  Triple-bind _
                    (move_file-Triple f stage paths lexically_normal content d ne two overwrite)
                    moved-Triple))

      permitted-Triple :
          (mode : ℕ) (n : Option Node) (answer : Answer)
          → Triple
              (λ g. Ready f stage content g × (g stage ≡ n))
              (permitted paths lexically_normal stage d overwrite mode n answer)
              (Outcome overwrite)
              (λ e. Remains f stage content)
      permitted-Triple mode n (failed e) = Triple-from (λ g h. h.0) (refusal overwrite _)
      permitted-Triple mode n done = after_mode mode n
      permitted-Triple mode n (cut k) = after_mode mode n

      commit_to-Triple :
          (permissions : Option ℕ) (target : Option Node)
          → Triple
              (Ready f stage content)
              (commit_to paths lexically_normal stage d overwrite permissions target)
              (Outcome overwrite)
              (λ e. Remains f stage content)
      unfolding commit_to
      commit_to-Triple permissions target =
          Triple-if (is_some target && not (is_regular target)) (λ _. refusal overwrite _)
            (λ _.
              Triple-if (not overwrite && is_some target) (λ _. refusal overwrite _)
                (λ _. Triple-bind _ (access-Triple target) (λ _.
                  Triple-bind _ (mode_for-Triple target permissions) (λ mode.
                    Triple-ask
                      (λ answer. Triple-node_at stage (λ n. permitted-Triple mode n answer))))))

      pub inspected_target-Triple :
          (permissions : Option ℕ) (n : Option Node) (answer : Answer)
          → Triple
              (Ready f stage content)
              (inspected_target paths lexically_normal stage d overwrite permissions n answer)
              (Outcome overwrite)
              (λ e. Remains f stage content)
      inspected_target-Triple permissions n (failed no_entry) = commit_to-Triple permissions none
      inspected_target-Triple permissions n (failed exists) = refusal overwrite _
      inspected_target-Triple permissions n (failed cross_device) = refusal overwrite _
      inspected_target-Triple permissions n (failed other) = refusal overwrite _
      inspected_target-Triple permissions n done = commit_to-Triple permissions n
      inspected_target-Triple permissions n (cut k) = commit_to-Triple permissions n
