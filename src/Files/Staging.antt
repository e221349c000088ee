-- ===== src/Files/Staging.antt =====
-- What the construction of a StagedFile and writeStaged (Native/src/Core/File.cpp) leave in place.
use ii_file_provider.Base.{
  ℕ, zero, suc, ◌≡◌, refl, Bool, true, false, inl, inr, List, [], ◌∷◌, Option, none, some, Bytes,
  take, leb, length,
}
use ii_file_provider.Files.World.{
  pure, put, Node, Answer, Error, ◌>>◌, done, failed, cut, regular, special, directory, symlink,
  Nodes, succeeds,
}
use ii_file_provider.Files.Paths.{Paths, is_name, parent_of, join}
use ii_file_provider.Files.Staged.{
  make_directories, reserve, take_lease, create_directories, stage_path, reserve_stage, staged_file,
  open_output, fill, write_output, write_staged, ensure_directory, ensure_sentinel, make_answered,
  reserve_at, discard, attempts, sentinel, maximum_stream,
}
use ii_file_provider.Files.Outcomes.{
  Triple, Triple-bind, Triple-if, Triple-pure, Triple-throw, Triple-call, Triple-require,
  Triple-ask, Triple-nonce, Triple-node_at, Triple-put, Triple-test, Triple-call_end, Triple-from,
}
use ii_file_provider.Files.Frame.{
  Grown, Safe, Staging, Holding, Safe-Grown, Safe-put, Staging-put, Staging-start, changed_same,
}

module _ (f : Nodes) where
  abbrev Lost : Error → Nodes → Type 0
  Lost e g = Grown f g

  -- Behind a look at `p`.
  abbrev Looked : Bytes → Option Node → Nodes → Type 0
  Looked p n g = Safe f g × (g p ≡ n)

  grown : {p : Bytes} {n : Option Node} (g : Nodes) → Looked p n g → Grown f g
  grown g h = Safe-Grown f g h.0

  ensure_directory-Triple :
      (p : Bytes) (n : Option Node) → Triple (Looked p n) (ensure_directory p n) (λ _. Safe f) Lost
  ensure_directory-Triple p none = Triple-put p _ (λ g h. Safe-put f g p _ h.0 h.1 (inl refl))
  ensure_directory-Triple p (some directory) = Triple-pure tt (λ g h. h.0)
  ensure_directory-Triple p (some (symlink target)) = Triple-pure tt (λ g h. h.0)
  ensure_directory-Triple p (some (regular content mode)) = Triple-throw _ grown
  ensure_directory-Triple p (some (special mode)) = Triple-throw _ grown

  make_directories-Triple :
      (ps : List Bytes) → Triple (Safe f) (make_directories ps) (λ _. Safe f) Lost
  unfolding make_directories
  make_directories-Triple [] = Triple-pure tt (λ g h. h)
  make_directories-Triple (p ∷ ps) =
      Triple-node_at p
        (λ n. Triple-bind _ (ensure_directory-Triple p n) (λ _. make_directories-Triple ps))

  make_answered-Triple :
      (ps : List Bytes) (answer : Answer)
      → Triple (Safe f) (make_answered ps answer) (λ _. Safe f) Lost
  unfolding make_answered
  make_answered-Triple ps done = make_directories-Triple ps
  make_answered-Triple ps (failed e) = Triple-throw _ (Safe-Grown f)
  make_answered-Triple ps (cut n) =
      Triple-bind _ (make_directories-Triple (take n ps)) (λ _. Triple-throw _ (Safe-Grown f))

  create_directories-Triple :
      (paths : Paths) (p : Bytes) → Triple (Safe f) (create_directories paths p) (λ _. Safe f) Lost
  unfolding create_directories
  create_directories-Triple paths [] = Triple-pure tt (λ g h. h)
  create_directories-Triple paths (c ∷ cs) = Triple-ask (make_answered-Triple _)

  ensure_sentinel-Triple :
      (p : Bytes) (n : Option Node) → Triple (Looked p n) (ensure_sentinel p n) (λ _. Safe f) Lost
  ensure_sentinel-Triple p none = Triple-put p _ (λ g h. Safe-put f g p _ h.0 h.1 (inr refl))
  ensure_sentinel-Triple p (some (regular [] mode)) = Triple-pure tt (λ g h. h.0)
  ensure_sentinel-Triple p (some (regular (b ∷ bs) mode)) = Triple-throw _ grown
  ensure_sentinel-Triple p (some directory) = Triple-throw _ grown
  ensure_sentinel-Triple p (some (symlink target)) = Triple-throw _ grown
  ensure_sentinel-Triple p (some (special mode)) = Triple-throw _ grown

  take_lease-Triple : (p : Bytes) → Triple (Safe f) (take_lease p) (λ _. Safe f) Lost
  unfolding take_lease
  take_lease-Triple p =
      Triple-call _ (Safe-Grown f) (Triple-node_at (join p sentinel) (ensure_sentinel-Triple _))

  abbrev Reserved : Bytes → Bool → Nodes → Type 0
  Reserved s true g = Staging f s g
  Reserved s false g = Safe f g

  reserve_free :
      (mode : ℕ) (s : Bytes)
      → Triple (Looked s none) (do put s (some (regular [] mode)); pure true) (Reserved s) Lost
  reserve_free mode s =
      Triple-bind (λ _. Staging f s)
        (Triple-put s _ (λ g h. Staging-put f s g _ (Staging-start f s g h.0 h.1)))
        (λ _. Triple-pure true (λ g h. h))

  reserve_at-Triple :
      (mode : ℕ) (s : Bytes) (n : Option Node) (answer : Answer)
      → Triple (Looked s n) (reserve_at mode s n answer) (Reserved s) Lost
  reserve_at-Triple mode s (some other) answer = Triple-pure false (λ g h. h.0)
  reserve_at-Triple mode s none (failed e) = Triple-pure false (λ g h. h.0)
  reserve_at-Triple mode s none done = reserve_free mode s
  reserve_at-Triple mode s none (cut n) = reserve_free mode s

  reserve-Triple : (mode : ℕ) (s : Bytes) → Triple (Safe f) (reserve mode s) (Reserved s) Lost
  unfolding reserve
  reserve-Triple mode s =
      Triple-ask (λ answer. Triple-node_at s (λ n. reserve_at-Triple mode s n answer))

  fill-Triple :
      (s bytes : Bytes) (n : Option Node)
      → Triple (Staging f s) (fill s bytes n) (λ _. Holding f s bytes) (λ e. Staging f s)
  fill-Triple s bytes (some (regular content mode)) =
      Triple-put s _
        (λ g h. (Staging-put f s g _ h, (mode, changed_same g s (some (regular bytes mode)))))
  fill-Triple s bytes none = Triple-throw _ (λ g h. h)
  fill-Triple s bytes (some directory) = Triple-throw _ (λ g h. h)
  fill-Triple s bytes (some (symlink target)) = Triple-throw _ (λ g h. h)
  fill-Triple s bytes (some (special mode)) = Triple-throw _ (λ g h. h)

  write_output-Triple :
      (s bytes : Bytes) (n : Option Node) (answer : Answer)
      → Triple
          (Staging f s)
          (write_output s bytes n answer)
          (λ _. Holding f s bytes)
          (λ e. Staging f s)
  write_output-Triple s bytes n done = fill-Triple s bytes n
  write_output-Triple s bytes n (failed e) = Triple-throw _ (λ g h. h)
  write_output-Triple s bytes n (cut count) =
      Triple-bind _ (fill-Triple s (take count bytes) n) (λ _. Triple-throw _ (λ g h. h.0))

  module _ (paths : Paths) where
    reserve_stage-Triple :
        (left : ℕ) (d : Bytes)
        → Triple (Safe f) (reserve_stage paths left d) (λ s. Staging f s) Lost
    unfolding reserve_stage
    reserve_stage-Triple zero d = Triple-throw _ (Safe-Grown f)
    reserve_stage-Triple (suc left) d = Triple-nonce (λ random.
        Triple-bind (Reserved (stage_path paths d random))
          (reserve-Triple paths.created_mode (stage_path paths d random))
          (λ free.
            Triple-test (Reserved (stage_path paths d random)) free (Triple-pure _ (λ g h. h))
              (reserve_stage-Triple left d)))

    pub staged_file-Triple :
        (name : Bytes)
        → Triple
            (Safe f)
            (staged_file paths name)
            (λ made g. Staging f made.0 g × (made.1 ≡ paths.absolute name))
            Lost
    unfolding staged_file
    staged_file-Triple name = Triple-require (is_name name) _ (Safe-Grown f) (λ fine.
        Triple-bind (λ _. Safe f) (create_directories-Triple paths _)
          (λ _.
            Triple-bind (λ _. Safe f) (take_lease-Triple (parent_of paths (paths.absolute name)))
              (λ _.
                Triple-bind (λ s. Staging f s) (reserve_stage-Triple attempts _)
                  (λ s. Triple-pure _ (λ g h. (h, refl))))))

    open_output-Triple :
        (s : Bytes) (n : Option Node)
        → Triple
            (λ g. Staging f s g × (g s ≡ n))
            (open_output paths s n)
            (λ _. Staging f s)
            (λ e. Staging f s)
    open_output-Triple s none = Triple-put s _ (λ g h. Staging-put f s g _ h.0)
    open_output-Triple s (some (regular content mode)) =
        Triple-put s _ (λ g h. Staging-put f s g _ h.0)
    open_output-Triple s (some directory) = Triple-throw _ (λ g h. h.0)
    open_output-Triple s (some (symlink target)) = Triple-throw _ (λ g h. h.0)
    open_output-Triple s (some (special mode)) = Triple-throw _ (λ g h. h.0)

    pub write_staged-Triple :
        (s bytes : Bytes)
        → Triple
            (Staging f s)
            (write_staged paths s bytes)
            (λ _. Holding f s bytes)
            (λ e. Staging f s)
    unfolding write_staged
    write_staged-Triple s bytes =
        Triple-call _ (λ g h. h)
          (Triple-node_at s (λ n.
            Triple-bind (λ _. Staging f s) (open_output-Triple s n)
              (λ _.
                Triple-require (leb (length bytes) maximum_stream) _ (λ g h. h)
                  (λ fits. Triple-ask (λ answer. Triple-node_at s (λ opened.
                    Triple-bind (λ _. Holding f s bytes)
                      (Triple-from (λ g h. h.0) (write_output-Triple s bytes opened answer))
                      (λ _. Triple-call_end _ (λ g h. h.0) (λ g h. h))))))))

  pub discard-Triple : (s : Bytes) → Triple (Staging f s) (discard s) (λ _. Staging f s) Lost
  unfolding discard
  discard-Triple s = Triple-ask (λ answer.
      Triple-if (succeeds answer) (λ fine. Triple-put s none (λ g h. Staging-put f s g none h))
        (λ fails. Triple-pure tt (λ g h. h)))
