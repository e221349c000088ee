-- ===== src/Files/Overwrite.antt =====
-- StagedFile::publish and File::write (Native/src/Core/File.cpp): the destination is replaced as a
-- whole, or nothing that was there is lost.
use ii_file_provider.Base.{refl, ◌≡◌, ok, err, Result, subst, sym, Bytes}
use ii_file_provider.Files.World.{
  io_failure, file_error, require, ◌>>◌, throw, Error, World, Error, Nodes,
}
use ii_file_provider.Files.Paths.{Paths}
use ii_file_provider.Files.Staged.{discard}
use ii_file_provider.Files.Staging.{staged_file-Triple, write_staged-Triple, discard-Triple}
use ii_file_provider.Files.Writes.{
  StagedFile, staged, succeeded, destroy, publish_staged, write_body, end_write, write,
}
use ii_file_provider.Files.Publish.{PublishResult, published, refused}
use ii_file_provider.Files.Replace.{Published, publish-Triple}
use ii_file_provider.Files.Outcomes.{
  Triple-refused, Triple-passed, Ends, Triple, Triple-bind, Triple-pure, Triple-throw,
}
use ii_file_provider.Files.Frame.{Grown, Safe, Staging, Holding, Replaced, Safe-refl, Staging-Grown}

module _ (f : Nodes) where
  -- The destructor of a StagedFile that has not been published, and the exception again.
  pub discarded-Triple :
      (s : Bytes) (e : Error) {Post : Unit {0} → Nodes → Type 0}
      → Triple (Staging f s) (do discard s; throw e) Post (λ e. Grown f)
  discarded-Triple s e =
      Triple-bind _ (discard-Triple f s) (λ _. Triple-throw e (Staging-Grown f s))

  module _ (paths : Paths) (s d bytes : Bytes) where
    -- Behind `publish_staged`: the flag tells what has happened.
    abbrev Settled : PublishResult × StagedFile → Nodes → Type 0
    Settled result g =
        Published f s d bytes (result.0) g
        × (result.1 ≡ record { path = s; destination = d; is_published = succeeded (result.0) })

    publish_staged-Triple :
        Triple (Holding f s bytes) (publish_staged paths (staged (s, d))) Settled (λ e. Staging f s)
    unfolding publish_staged
    publish_staged-Triple =
        Triple-bind _ (publish-Triple f s bytes d paths)
          (λ result. Triple-pure _ (λ g h. (h, refl)))

    write_body-Triple :
        Triple (Staging f s) (write_body paths (staged (s, d)) bytes) Settled (λ e. Staging f s)
    unfolding write_body
    write_body-Triple =
        Triple-bind _ (write_staged-Triple f paths s bytes) (λ _. publish_staged-Triple)

    -- The destructor and the result, behind a publication.
    settle-Triple :
        (result : PublishResult)
        → Triple
            (Published f s d bytes result)
            (do
              destroy (record { path = s; destination = d; is_published = succeeded result })
              require (succeeded result) (file_error io_failure))
            (λ _. Replaced f d bytes)
            (λ e. Grown f)
    unfolding destroy
    settle-Triple published =
        Triple-bind (λ _. Replaced f d bytes) (Triple-pure tt (λ g h. h))
          (λ _. Triple-passed _ (λ g h. h))
    settle-Triple (refused suffix) =
        Triple-bind (λ _. Staging f s) (discard-Triple f s)
          (λ _. Triple-refused _ (Staging-Grown f s))

    end_write-Ends :
        (o : Result Error (PublishResult × StagedFile) × World)
        → Ends Settled (λ e. Staging f s) o
        → Ends (λ _. Replaced f d bytes) (λ e. Grown f) (end_write paths (staged (s, d)) o)
    unfolding end_write destroy
    end_write-Ends (ok (result, file), w) h =
        subst
          (λ after.
            Ends (λ _. Replaced f d bytes) (λ e. Grown f)
              ((do destroy after; require (succeeded result) (file_error io_failure)) w))
          (sym h.1) ((settle-Triple result).ends w h.0)
    end_write-Ends (err e, w) h = (discarded-Triple s e).ends w h

  pub write-Triple :
      (paths : Paths) (name bytes : Bytes)
      → Triple
          (Safe f)
          (write paths name bytes)
          (λ _. Replaced f (paths.absolute name) bytes)
          (λ e. Grown f)
  unfolding write
  write-Triple paths name bytes = Triple-bind _ (staged_file-Triple f paths name) (λ made. record {
    ends = λ w h.
        subst
          (λ d.
            Ends (λ _. Replaced f d bytes) (λ e. Grown f)
              (end_write paths (staged made) (write_body paths (staged made) bytes w)))
          h.1
          (end_write-Ends paths made.0 made.1 bytes _
            ((write_body-Triple paths made.0 made.1 bytes).ends w h.0));
  })

-- Whatever the calls answer: when `write` returns, the destination is a regular file that holds
-- exactly the bytes, and every other path has what it had (no staged file is left), or a new directory
-- or sentinel where nothing was; when it throws, every file that was there, the destination
-- included, is there with the same content and mode.
pub write-Replaced :
    (paths : Paths) (name bytes : Bytes) (w : World)
    → Ends
        (λ _. Replaced w.nodes (paths.absolute name) bytes)
        (λ e. Grown w.nodes)
        (write paths name bytes w)
write-Replaced paths name bytes w =
    (write-Triple w.nodes paths name bytes).ends w (Safe-refl w.nodes)
