-- ===== src/Files/Guarded.antt =====
-- File::update (Native/src/Core/File.cpp): it replaces what it has been told to expect, or nothing.
use ii_file_provider.Base.{
  bytes_eq_iff, ◌∙◌, Bool, bytes_eq, ℕ, sym, subst, Result, Option, Bytes, ◌≡◌, refl, none, some,
  true, false, ok, err,
}
use ii_file_provider.Files.World.{
  directory, special, symlink, regular, symlink, special, Answer, pure, World, regular, Node, Error,
  throw, require, done, cut, failed, exists, no_entry, cross_device, other, Nodes, limit_exceeded,
  already_exists, conflict, io_failure, invalid_path, file_error, other_error,
}
use ii_file_provider.Files.Paths.{Paths, checked_path, is_name}
use ii_file_provider.Files.Publish.{is_regular}
use ii_file_provider.Files.Reads.{readable}
use ii_file_provider.Files.Writes.{
  inspected, inspect, maximum_of, compare_content, as_conflict, update,
}
use ii_file_provider.Files.Content.{read-Triple}
use ii_file_provider.Files.Overwrite.{write-Triple}
use ii_file_provider.Files.Outcomes.{
  Triple-weaken, Ends, Triple, Triple-bind, Triple-pure, Triple-ask, Triple-node_at, Triple-require,
  Triple-fact, Triple-throw, Triple-from,
}
use ii_file_provider.Files.Frame.{Grown, Safe, Replaced, Safe-refl}

require-Triple :
    {Pre : Nodes → Type 0} {Fail : Error → Nodes → Type 0} (test : Bool) (e : Error)
    → ((g : Nodes) → Pre g → Fail e g)
    → Triple Pre (require test e) (λ _ g. (test ≡ true) × Pre g) Fail
unfolding require throw pure
require-Triple true e h = record { ends = λ w x. (refl, x) }
require-Triple false e h = record { ends = λ w x. h w.nodes x }

-- A regular file is what is read through its path.
regular-readable :
    (n : Option Node) (content : Bytes)
    → is_regular n ≡ true
    → readable n ≡ some content
    → (mode : ℕ) × (n ≡ some (regular content mode))
regular-readable (some (regular c mode)) content r e = (mode, cc)
regular-readable none content r e = cc
regular-readable (some (special mode)) content r e = cc
regular-readable (some directory) content r e = cc
regular-readable (some (symlink target)) content r e = cc

module _ (f : Nodes) where
  -- Nothing has been done yet.
  abbrev Same : Nodes → Type 0
  Same g = g ≡ f

  grown : (g : Nodes) → Same g → Grown f g
  grown g e p n h = subst (λ k. k p ≡ some n) (sym e) h

  module _ (paths : Paths) where
    inspected_kind :
        (target : Bytes) (n : Option Node)
        → Triple
            (λ g. Same g × (g target ≡ n))
            (require (is_regular n) (file_error conflict))
            (λ _ g. (is_regular (f target) ≡ true) × Same g)
            (λ e. Grown f)
    inspected_kind target n =
        Triple-weaken (require-Triple (is_regular n) _ (λ g h. grown g h.0))
          (λ _ g h. (
            subst (λ k. is_regular (k target) ≡ true) h.1.0
                (subst (λ o. is_regular o ≡ true) (sym h.1.1) h.0),
            h.1.0,
          ))
          (λ e g h. h)

    inspected-Triple :
        (target : Bytes) (n : Option Node) (answer : Answer)
        → Triple
            (λ g. Same g × (g target ≡ n))
            (inspected paths n answer)
            (λ _ g. (is_regular (f target) ≡ true) × Same g)
            (λ e. Grown f)
    inspected-Triple target n (failed exists) = Triple-throw _ (λ g h. grown g h.0)
    inspected-Triple target n (failed no_entry) = Triple-throw _ (λ g h. grown g h.0)
    inspected-Triple target n (failed cross_device) = Triple-throw _ (λ g h. grown g h.0)
    inspected-Triple target n (failed other) = Triple-throw _ (λ g h. grown g h.0)
    inspected-Triple target n done = inspected_kind target n
    inspected-Triple target n (cut k) = inspected_kind target n

    inspect-Triple :
        (target : Bytes)
        → Triple Same
            (inspect paths target)
            (λ _ g. (is_regular (f target) ≡ true) × Same g)
            (λ e. Grown f)
    unfolding inspect
    inspect-Triple target =
        Triple-ask (λ answer. Triple-node_at target (λ n. inspected-Triple target n answer))

    as_conflict-Ends :
        {A : Type 0} (Post : A → Nodes → Type 0) (o : Result Error A × World)
        → Ends Post (λ e. Same) o
        → Ends Post (λ e. Grown f) (as_conflict paths o)
    as_conflict-Ends Post (ok a, w) h = h
    as_conflict-Ends Post (err (file_error limit_exceeded), w) h = grown _ h
    as_conflict-Ends Post (err (file_error io_failure), w) h = grown _ h
    as_conflict-Ends Post (err (file_error already_exists), w) h = grown _ h
    as_conflict-Ends Post (err (file_error conflict), w) h = grown _ h
    as_conflict-Ends Post (err (file_error invalid_path), w) h = grown _ h
    as_conflict-Ends Post (err other_error, w) h = grown _ h

    -- The content is the expected one, behind the comparison.
    abbrev Expected : Bytes → Bytes → Nodes → Type 0
    Expected target expected g = (readable (f (paths.absolute target)) ≡ some expected) × Same g

    compare_content-Triple :
        (target expected : Bytes)
        → Triple Same
            (compare_content paths target expected)
            (λ _. Expected target expected)
            (λ e. Same)
    unfolding compare_content
    compare_content-Triple target expected =
        Triple-bind _ (read-Triple Same paths target (maximum_of paths expected)) (λ content.
          Triple-weaken (require-Triple (bytes_eq content expected) _ (λ g h. h.1))
            (λ _ g h. (
              subst (λ b. readable (f (paths.absolute target)) ≡ some b)
                  ((bytes_eq_iff content expected).0 h.0)
                  (subst (λ k. readable (k (paths.absolute target)) ≡ some content) h.1.1 h.1.2),
              h.1.1,
            ))
            (λ e g h. h))

    -- The destination held the expected bytes, and now holds the replacement alone.
    abbrev pub Updated : Bytes → Bytes → Bytes → Nodes → Type 0
    Updated d expected replacement g =
        ((mode : ℕ) × (f d ≡ some (regular expected mode))) × Replaced f d replacement g

    module _
        (absolute_absolute : (p : Bytes)
          → paths.absolute (paths.absolute p) ≡ paths.absolute p) where
      pub update-Triple :
          (name expected replacement : Bytes)
          → Triple Same
              (update paths name expected replacement)
              (λ _. Updated (paths.absolute name) expected replacement)
              (λ e. Grown f)
      unfolding update checked_path
      update-Triple name expected replacement =
          Triple-bind (λ target g. (target ≡ paths.absolute name) × Same g)
            (Triple-require (is_name name) _ grown (λ fine. Triple-pure _ (λ g h. (refl, h))))
            (λ target. Triple-fact (λ e. Triple-bind _ (inspect-Triple target) (λ _.
              Triple-fact (λ kind.
                Triple-bind (λ _. Expected target expected)
                  (record {
                    ends = λ w x.
                        as_conflict-Ends {A = Unit {0}} (λ _. Expected target expected)
                          (compare_content paths target expected w)
                          ((compare_content-Triple target expected).ends w x);
                  })
                  (λ _. Triple-fact (λ here.
                    let same : paths.absolute target ≡ target =
                      subst (λ t. paths.absolute t ≡ t) (sym e) (absolute_absolute name) in
                    Triple-weaken
                      (Triple-from (λ g h. subst (Safe f) (sym h) (Safe-refl f))
                        (write-Triple f paths target replacement))
                      (λ _ g h. (
                        subst (λ d. (mode : ℕ) × (f d ≡ some (regular expected mode))) e
                            (regular-readable (f target) expected kind
                              (subst (λ t. readable (f t) ≡ some expected) same here)),
                        subst (λ d. Replaced f d replacement g) (same ∙ e) h,
                      ))
                      (λ e g h. h)))))))

-- Whatever the calls answer, where `absolute` leaves an absolute path as it is: when `update`
-- returns, the destination was a regular file with exactly the expected bytes, it holds exactly
-- the replacement, and every other path has what it had, or a new directory or sentinel where
-- nothing was; when it throws, every file that was there is there with the same content and mode.
pub update-Updated :
    (paths : Paths)
    → ((p : Bytes) → paths.absolute (paths.absolute p) ≡ paths.absolute p)
    → (name expected replacement : Bytes) (w : World)
    → Ends
        (λ _. Updated w.nodes paths (paths.absolute name) expected replacement)
        (λ e. Grown w.nodes)
        (update paths name expected replacement w)
update-Updated paths absolute_absolute name expected replacement w =
    (update-Triple w.nodes paths absolute_absolute name expected replacement).ends w refl
