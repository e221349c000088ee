-- ===== src/Files/Content.antt =====
-- File::read and the comparison of File::update (Native/src/Core/File.cpp): the bytes that are
-- returned are the whole content of the file.
use ii_file_provider.Base.{
  ==→eq, sym, ◌==◌, refl, none, some, subst, ◌∙◌, true, arith, ap, ◌||◌, take, some, ltb, ◌≡◌,
  Option, length, Bytes, not, ℕ, ◌≤◌, length-take, take-all,
}
use ii_file_provider.Files.World.{
  pure, limit_exceeded, require, ◌>>◌, ◌>>=◌, Answer, Nodes, file_error, io_failure, done, cut,
  failed,
}
use ii_file_provider.Files.Paths.{Paths, checked_path, is_name}
use ii_file_provider.Files.Reads.{
  ReadFile, good, readable, maximum_offset, opened_file, open_read, pos, read_answered, read_amount,
  read_some, or_throw, read_bytes, advanced, read,
}
use ii_file_provider.Files.Outcomes.{
  Triple-weaken, Triple-from, Triple, Triple-bind, Triple-pure, Triple-throw, Triple-call,
  Triple-ask, Triple-node_at, Triple-require, Triple-fact, Triple-exists,
}

-- A read of at least the whole of `content` that is not cut is the whole of it.
abbrev Whole : Bytes → Option Bytes → Type 0
Whole content none = Unit
Whole content (some bytes) = length bytes ≡ length content → bytes ≡ content

take-Whole : (n : ℕ) (content : Bytes) → Whole content (some (take n content))
take-Whole n content e = take-all n content (omega (arith, e, length-take n content))

take-take-Whole : (n m : ℕ) (content : Bytes) → Whole content (some (take n (take m content)))
take-take-Whole n m content e =
    take-all n (take m content)
      (omega (arith, e, length-take n (take m content), length-take m content))
    ∙ take-Whole m content (omega (arith, e, length-take n (take m content), length-take m content))

abbrev opened : Bytes → ReadFile
opened content = record { content = content; size = length content; position = 0; flags = good }

abbrev pub Within : Bytes → ℕ → Type 0
Within content maximum = (length content ≤ maximum) × (length content ≤ maximum_offset)

bounded : (n m : ℕ) → not (ltb m n || ltb maximum_offset n) ≡ true → (n ≤ m) × (n ≤ maximum_offset)
bounded n m h = (ground arith, ground arith)

module _ (Pre : Nodes → Type 0) where
  -- An open file with the content that is read through `target`.
  abbrev Opened : Bytes → ReadFile → Nodes → Type 0
  Opened target file g =
      (content : Bytes) × ((file ≡ opened content) × (Pre g × (readable (g target) ≡ some content)))

  opened_file-Triple :
      (target : Bytes) (o : Option Bytes)
      → Triple (λ g. Pre g × (readable (g target) ≡ o)) (opened_file o) (Opened target) (λ e. Pre)
  opened_file-Triple target none = Triple-throw _ (λ g h. h.0)
  opened_file-Triple target (some content) = Triple-pure _ (λ g h. (content, (refl, h)))

  open_read-Triple :
      (paths : Paths) (path : Bytes)
      → Triple Pre (open_read paths path) (Opened (paths.absolute path)) (λ e. Pre)
  unfolding open_read checked_path
  open_read-Triple paths path =
      Triple-bind (λ target g. (target ≡ paths.absolute path) × Pre g)
        (Triple-require (is_name path) _ (λ g h. h) (λ fine. Triple-pure _ (λ g h. (refl, h))))
        (λ target. Triple-fact (λ e.
          Triple-call _ (λ g h. h)
            (Triple-call _ (λ g h. h)
              (Triple-call _ (λ g h. h)
                (Triple-node_at target (λ n.
                  Triple-from (λ g h. (h.0, ap readable (subst (λ p. g p ≡ n) e h.1)))
                    (opened_file-Triple (paths.absolute path) (readable n))))))))

  module _ (target content : Bytes) where
    abbrev There : Nodes → Type 0
    There g = Pre g × (readable (g target) ≡ some content)

    answered-Whole :
        (m : ℕ) (answer : Answer) → Whole content (read_answered (opened content) m answer).0
    unfolding advanced
    answered-Whole m (failed e) = tt
    answered-Whole m done = take-Whole m content
    answered-Whole m (cut n) = take-take-Whole n m content

    or_throw-Triple :
        (o : Option Bytes) (file : ReadFile)
        → Triple
            (λ g. Whole content o × There g)
            (or_throw o file)
            (λ result g. Whole content (some result.0) × There g)
            (λ e. Pre)
    or_throw-Triple none file = Triple-throw _ (λ g h. h.1.0)
    or_throw-Triple (some bytes) file = Triple-pure _ (λ g h. h)

    read_bytes-Triple :
        Triple There
          (read_bytes (opened content) (pos (length content)))
          (λ result g. Whole content (some result.0) × There g)
          (λ e. Pre)
    unfolding read_bytes read_some read_amount
    read_bytes-Triple =
        Triple-bind (λ result g. Whole content result.0 × There g)
          (Triple-ask (λ answer. Triple-pure _ (λ g h. (answered-Whole _ answer, h))))
          (λ result. or_throw-Triple result.0 result.1)

    behind_open-Triple :
        (maximum : ℕ)
        → Triple There
            (do
              require
                  (not (ltb maximum (length content) || ltb maximum_offset (length content)))
                  (file_error limit_exceeded)
              result ← read_bytes (opened content) (pos (length content))
              require (length (result.0) == length content) (file_error io_failure)
              pure (result.0))
            (λ bytes g. (bytes ≡ content) × (length content ≤ maximum) × There g)
            (λ e. Pre)
    behind_open-Triple maximum =
        Triple-require _ _ (λ g h. h.0)
          (λ fits. Triple-bind _ read_bytes-Triple (λ result.
            Triple-require (length (result.0) == length content) _ (λ g h. h.1.0)
              (λ equal.
                Triple-pure _ (λ g h.
                  (h.0 (==→eq _ _ equal), (bounded (length content) maximum fits).0, h.1)))))

  -- A returned content is the whole content of the file, and is within the limit; a read leaves
  -- everything as it is.
  pub read-Triple :
      (paths : Paths) (path : Bytes) (maximum : ℕ)
      → Triple Pre
          (read paths path maximum)
          (λ bytes g.
            (length bytes ≤ maximum) × Pre g × (readable (g (paths.absolute path)) ≡ some bytes))
          (λ e. Pre)
  unfolding read
  read-Triple paths path maximum = Triple-bind _ (open_read-Triple paths path) (λ input.
      Triple-exists (λ content. Triple-fact (λ e.
        subst
          (λ file.
            Triple (There (paths.absolute path) content)
              (do
                require (not (ltb maximum file.size || ltb maximum_offset file.size))
                    (file_error limit_exceeded)
                result ← read_bytes file (pos file.size)
                require (length (result.0) == file.size) (file_error io_failure)
                pure (result.0))
              (λ bytes g.
                (length bytes ≤ maximum)
                × Pre g
                × (readable (g (paths.absolute path)) ≡ some bytes))
              (λ e. Pre))
          (sym e)
          (Triple-weaken (behind_open-Triple (paths.absolute path) content maximum)
            (λ bytes g h.
              (subst (λ b. length b ≤ maximum) (sym h.0) h.1, h.2.0, h.2.1 ∙ ap some (sym h.0)))
            (λ e g h. h)))))
