-- ===== src/Files/Once.antt =====
-- AtomicSave (Native/src/Filesystem/AtomicSave.cpp) publishes once.
use ii_file_provider.Base.{
  Option, ◌≤◌, Bytes, ◌≢◌, ℕ, ◌+◌, ◌≡◌, refl, Bool, true, false, if◌then◌else◌, List, [], ◌∷◌, ok,
  err, Result, arith, ◌||◌, not,
}
use ii_file_provider.Files.World.{World, Error, Answer, Node, done, failed, cut}
use ii_file_provider.Files.Paths.{Paths}
use ii_file_provider.Files.Publish.{PublishResult, published, refused}
use ii_file_provider.Files.Save.{
  Save, Call, use_device, set_permissions, cancel, commit, Reply, commit_try, commit_save,
  committed_by, permitted_by, perform, counted, run_from, run_save, next_answer, spent,
}

abbrev pub flag : Bool → ℕ
flag true = 1
flag false = 0

-- A reply that reports a publication has set the flag, and another has left it.
record Counts (paths : Paths) (normal : Bytes → Bytes) (s : Save) (r : Reply) : Type 0 where
  sum : counted paths normal r.0 (flag s.committed) ≡ flag r.1.0.committed

module _ (paths : Paths) (normal : Bytes → Bytes) where
  committed_by-Counts :
      (s : Save) (o : Result Error PublishResult × World)
      → s.committed ≡ false
      → Counts paths normal s (committed_by paths normal s o)
  committed_by-Counts s (ok published, w) e = record { sum = rw e refl }
  committed_by-Counts s (ok (refused suffix), w) e = record { sum = refl }
  committed_by-Counts s (err x, w) e = record { sum = refl }

  either :
      (s : Save) (b : Bool) {r r' : Reply}
      → (b ≡ true → Counts paths normal s r)
      → (b ≡ false → Counts paths normal s r')
      → Counts paths normal s (if b then r else r')
  either s true h k = h refl
  either s false h k = k refl

  commit_save-Counts :
      (s : Save) (overwrite : Bool) (w : World)
      → Counts paths normal s (commit_save paths normal s overwrite w)
  unfolding commit_save
  commit_save-Counts s overwrite w =
      either s s.committed (λ before. record { sum = refl })
        (λ first.
          either s (s.cancelled || (not s.is_open || s.broken)) (λ over. record { sum = refl })
            (λ fine. committed_by-Counts s (commit_try paths normal s overwrite w) first))

  permitted_by-Counts :
      (s : Save) (mode : ℕ) (answer : Answer) (n : Option Node) (w : World)
      → Counts paths normal s (permitted_by paths normal s mode answer n w)
  permitted_by-Counts s mode (failed e) n w = record { sum = refl }
  permitted_by-Counts s mode done n w = record { sum = refl }
  permitted_by-Counts s mode (cut k) n w = record { sum = refl }

  perform-Counts :
      (c : Call) (s : Save) (w : World) → Counts paths normal s (perform paths normal c s w)
  perform-Counts (use_device nodes path opened fails) s w = record { sum = refl }
  perform-Counts (set_permissions mode) s w =
      either s s.is_open
        (λ opened.
          permitted_by-Counts s mode (next_answer paths normal w) (w.nodes s.path)
            (spent paths normal w))
        (λ closed. record { sum = refl })
  perform-Counts cancel s w = record { sum = refl }
  perform-Counts (commit overwrite) s w = commit_save-Counts s overwrite w

  carry :
      (b b' : Bool) (n x x' y : ℕ)
      → n + x' ≡ counted paths normal b' y
      → counted paths normal b' x ≡ x'
      → counted paths normal b n + x ≡ counted paths normal b y
  carry true true n x x' y e k = omega (arith, e, k)
  carry true false n x x' y e k = omega (arith, e, k)
  carry false true n x x' y e k = omega (arith, e, k)
  carry false false n x x' y e k = omega (arith, e, k)

  last : (b : Bool) (x : ℕ) → counted paths normal b 0 + x ≡ counted paths normal b x
  last true x = omega arith
  last false x = omega arith

  run_from-Counts :
      (cs : List Call) (b : Bool) (s : Save) (w : World)
      → (run_from paths normal cs (b, (s, w))).0 + flag s.committed
        ≡ counted paths normal b (flag (run_from paths normal cs (b, (s, w))).1.0.committed)
  run_from-Counts [] b s w = last b (flag s.committed)
  run_from-Counts (c ∷ cs) b s w =
      let reply = perform paths normal c s w in
      carry b reply.0 (run_from paths normal cs reply).0 (flag s.committed)
        (flag reply.1.0.committed) _ (run_from-Counts cs reply.0 reply.1.0 reply.1.1)
        (perform-Counts c s w).sum

unset : false ≢ true
unset e = cc

at_most : (n : ℕ) (b b' : Bool) → n + flag b ≡ flag b' → (n ≤ 1) × (b ≡ true → n ≡ 0)
at_most n true true e = (omega arith, λ t. omega arith)
at_most n true false e = (omega arith, λ t. omega arith)
at_most n false true e = (omega arith, λ t. absurd (unset t))
at_most n false false e = (omega arith, λ t. absurd (unset t))

-- Whatever the system answers, a sequence of `commit`, `cancel`, `setPermissions` and uses of the
-- device, closing it and opening it again among them, reports at most one publication, and none if one had been reported before; it has
-- reported one exactly if the flag `committed` has been set on the way.
pub run_save-once :
    (paths : Paths) (lexically_normal : Bytes → Bytes) (cs : List Call) (s : Save) (w : World)
    → let end = run_save paths lexically_normal cs s w in
      (end.0 ≤ 1)
      × (s.committed ≡ true → end.0 ≡ 0)
      × (end.0 + flag s.committed ≡ flag end.1.0.committed)
run_save-once paths lexically_normal cs s w =
    let sum = run_from-Counts paths lexically_normal cs false s w in
    let bound = at_most _ s.committed _ sum in (bound.0, bound.1, sum)
