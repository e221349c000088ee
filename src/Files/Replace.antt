-- ===== src/Files/Replace.antt =====
-- File::publish, StagedFile::publish and File::write (Native/src/Core/File.cpp): the destination is
-- replaced as a whole, or nothing that was there is lost.
use ii_file_provider.Base.{
  refl, sym, subst, err, none, ok, ◌||◌, ◌≡◌, some, bytes_eq_iff, not, Option, Result, bytes_eq,
  Bytes, ℕ,
}
use ii_file_provider.Files.World.{changed, World, Node, Error, succeeds, other_error, pure, Nodes}
use ii_file_provider.Files.Paths.{Paths, canonical_parent}
use ii_file_provider.Files.Publish.{
  PublishResult, published, refused, is_regular, is_directory, is_symlink, mode_of, status,
  set_mode, copy_mode, move_node, rename, publish_body, or_refused, publish,
}
use ii_file_provider.Files.Outcomes.{
  Triple-look, Ends, Triple, Triple-bind, Triple-if, Triple-pure, Triple-call, Triple-ask,
  Triple-preview, Triple-node_at, Triple-put,
}
use ii_file_provider.Files.Frame.{
  Staging, Holding, Replaced, Holding-mode, Holding-same, Holding-moved, bytes_eq-false,
}

module _ (f : Nodes) where
  -- Behind a publication of the bytes staged at `s` to `d`.
  abbrev pub Published : Bytes → Bytes → Bytes → PublishResult → Nodes → Type 0
  Published s d bytes published g = Replaced f d bytes g
  Published s d bytes (refused suffix) g = Staging f s g

  module _ (s bytes : Bytes) where
    status-Triple :
        (p : Bytes)
        → Triple (Holding f s bytes) (status p) (λ n. Holding f s bytes) (λ e. Staging f s)
    unfolding status
    status-Triple p = record { ends = (Triple-call other_error (λ g h. h.0) (Triple-look p)).ends }

    set_mode-Triple :
        (mode : ℕ)
        → Triple (Holding f s bytes) (set_mode s mode) (λ _. Holding f s bytes) (λ e. Staging f s)
    unfolding set_mode
    set_mode-Triple mode =
        Triple-call _ (λ g h. h.0)
          (Triple-node_at s (λ n. Triple-put s _ (λ g h. Holding-mode f s bytes g n mode h)))

    copy_mode-Triple :
        (n : Option Node)
        → Triple (Holding f s bytes) (copy_mode s n) (λ _. Holding f s bytes) (λ e. Staging f s)
    copy_mode-Triple none = Triple-pure tt (λ g h. h)
    copy_mode-Triple (some n) = set_mode-Triple (mode_of n 0)

    module _ (d : Bytes) where
      move_node-Triple :
          Triple (Holding f s bytes) (move_node s d) (λ _. Replaced f d bytes) (λ e. Staging f s)
      unfolding move_node
      move_node-Triple =
          Triple-if (bytes_eq s d)
            (λ same. Triple-pure tt (λ g. Holding-same f s d bytes g ((bytes_eq_iff s d).0 same)))
            (λ different. Triple-node_at s (λ n.
              Triple-bind
                (λ _ g. (h : Nodes) × (Holding f s bytes h × (h s ≡ n)) × (g ≡ changed h d n))
                (Triple-put d n (λ g h. (g, h, refl)))
                (λ _. Triple-put s none (λ g h.
                  subst (λ k. Replaced f d bytes (changed k s none)) (sym (h.2))
                    (Holding-moved f s d bytes (h.0) n (bytes_eq-false s d different) (h.1))))))

      rename-Triple :
          Triple (Holding f s bytes) (rename s d) (Published s d bytes) (λ e. Staging f s)
      unfolding rename
      rename-Triple = Triple-ask (λ answer.
          Triple-if (succeeds answer)
            (λ fine.
              Triple-bind (λ _. Replaced f d bytes) move_node-Triple
                (λ _. Triple-preview _ (Triple-pure published (λ g h. h))))
            (λ fails. Triple-pure _ (λ g h. h.0)))

      module _ (paths : Paths) where
        refuse-Triple :
            (suffix : Bytes)
            → Triple
                (Holding f s bytes)
                (pure (refused suffix))
                (Published s d bytes)
                (λ e. Staging f s)
        refuse-Triple suffix = Triple-pure _ (λ g h. h.0)

        canonical-Triple :
            (p : Bytes)
            → Triple
                (Holding f s bytes)
                (canonical_parent paths p)
                (λ _. Holding f s bytes)
                (λ e. Staging f s)
        unfolding canonical_parent
        canonical-Triple p = Triple-call _ (λ g h. h.0) (Triple-pure _ (λ g h. h))

        publish_body-Triple :
            Triple
              (Holding f s bytes)
              (publish_body paths s d)
              (Published s d bytes)
              (λ e. Staging f s)
        unfolding publish_body
        publish_body-Triple = Triple-bind _ (canonical-Triple s) (λ from.
            Triple-bind _ (canonical-Triple d) (λ to.
              Triple-if (not (bytes_eq from to)) (λ _. refuse-Triple _)
                (λ _. Triple-bind _ (status-Triple s) (λ source.
                  Triple-if (not (is_regular source)) (λ _. refuse-Triple _)
                    (λ _. Triple-bind _ (status-Triple d) (λ target.
                      Triple-if (is_symlink target || is_directory target) (λ _. refuse-Triple _)
                        (λ _. Triple-bind _ (copy_mode-Triple target) (λ _. rename-Triple))))))))

        or_refused-Ends :
            (o : Result Error PublishResult × World)
            → Ends (Published s d bytes) (λ e. Staging f s) o
            → Ends (Published s d bytes) (λ e. Staging f s) (or_refused paths o)
        or_refused-Ends (ok result, w) h = h
        or_refused-Ends (err e, w) h = h

        pub publish-Triple :
            Triple (Holding f s bytes) (publish paths s d) (Published s d bytes) (λ e. Staging f s)
        unfolding publish
        publish-Triple = record {
          ends = λ w x. or_refused-Ends (publish_body paths s d w) (publish_body-Triple.ends w x);
        }
